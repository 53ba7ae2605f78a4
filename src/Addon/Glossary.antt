-- ===== src/Addon/Glossary.antt =====
-- The glossary (fcitx5-wetype/src/glossary.h): `Glossary::load` on the bytes of its file, and
-- `lookup`. The map is an association list; a later entry for a word replaces the earlier one.
use wetype_ime_linux.Base.{
  ℕ, List, [], ◌∷◌, Option, none, some, Bool, true, ◌&&◌, ◌==◌, if◌then◌else◌, codes, length, drop,
  str_eqb, String,
}
use wetype_ime_linux.Addon.Punctuation.{is_nil}
use wetype_ime_linux.Daemon.Commands.{starts_with}

abbrev pub Entries : Type 0
Entries = List (List ℕ × List ℕ)

-- `std::getline` until it fails, with this delimiter.
unfoldable pub get_delim : ℕ → List ℕ → List (List ℕ)
get_delim d [] = []
get_delim d (c ∷ cs) =
    let rest = get_delim d cs in
    if c == d then [] ∷ rest else elim rest [ [] ↦ (c ∷ []) ∷ [] | l ∷ ls ↦ (c ∷ l) ∷ ls ]

-- `line.find('\t')`: what stands before the first tab, and after it.
unfoldable pub split_tab : List ℕ → Option (List ℕ × List ℕ)
split_tab [] = none
split_tab (c ∷ cs) =
    let rest = split_tab cs in
    if c == b'\t' then some ([], cs) else elim rest [ none ↦ none | some (l, r) ↦ some (c ∷ l, r) ]

-- `line.pop_back()` on a carriage return.
unfoldable pub drop_return : List ℕ → List ℕ
drop_return [] = []
drop_return (c ∷ cs) =
    let rest = drop_return cs in if is_nil cs && (c == b'\r') then [] else c ∷ rest

unfoldable pub prefixes : List String
prefixes =
    "n. " ∷ "v. " ∷ "a. " ∷ "adj. " ∷ "adv. " ∷ "pron. " ∷ "prep. " ∷ "conj. " ∷ "int. " ∷ "num. "
    ∷ "art. " ∷ "det. " ∷ "aux. " ∷ "vt. " ∷ "vi. " ∷ "interj. " ∷ []

-- The first of the prefixes that the gloss begins with is erased.
unfoldable pub erase_prefix : List String → List ℕ → List ℕ
erase_prefix [] gloss = gloss
erase_prefix (p ∷ ps) gloss =
    let rest = erase_prefix ps gloss in
    if starts_with (codes p) gloss then drop (length (codes p)) gloss else rest

abbrev pub is_comment : List ℕ → Bool
is_comment [] = true
is_comment (c ∷ cs) = c == b'#'

-- The word and the gloss of a line, if it has both.
unfoldable pub read_entry : List ℕ → Option (List ℕ × List ℕ)
read_entry raw =
    let l = drop_return raw in
    if is_comment l then none else elim (split_tab l) [
      | none ↦ none
      | some ([], rest) ↦ none
      | some (c ∷ word, rest) ↦
          let gloss =
            erase_prefix prefixes (elim (split_tab rest) [ none ↦ rest | some (g, more) ↦ g ]) in
          if is_nil gloss then none else some (c ∷ word, gloss)
    ]

-- `entries_[word] = gloss`.
unfoldable pub insert : List ℕ → List ℕ → Entries → Entries
insert w g [] = (w, g) ∷ []
insert w g ((v, h) ∷ es) =
    let rest = insert w g es in if str_eqb w v then (w, g) ∷ es else (v, h) ∷ rest

unfoldable pub load_lines : List (List ℕ) → Entries → Entries
load_lines [] es = es
load_lines (l ∷ ls) es =
    load_lines ls (elim (read_entry l) [ none ↦ es | some (w, g) ↦ insert w g es ])

-- `load`, whose result is the size of the map.
unfoldable pub load : List ℕ → Entries × ℕ
load file = let es = load_lines (get_delim b'\n' file) [] in (es, length es)

unfoldable pub lookup : Entries → List ℕ → Option (List ℕ)
lookup [] w = none
lookup ((v, h) ∷ es) w = let rest = lookup es w in if str_eqb w v then some h else rest
