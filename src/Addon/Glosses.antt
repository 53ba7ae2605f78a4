-- ===== src/Addon/Glosses.antt =====
-- The glossary as a map.
use wetype_ime_linux.Base.{
  ℕ, List, [], ◌∷◌, Option, none, some, false, ◌≡◌, refl, sym, ap, ◌∙◌, Bool-cases, Option-cases,
  inl, inr, if◌then◌else◌, str_eqb, str_eqb→eq, subst,
}
use wetype_ime_linux.Addon.Glossary.{
  Entries, get_delim, read_entry, insert, load_lines, load, lookup,
}

-- The gloss of a word after these lines: that of the last line for it, or the one it had.
unfoldable pub last_gloss : List ℕ → List (List ℕ) → Option (List ℕ) → Option (List ℕ)
last_gloss w [] d = d
last_gloss w (l ∷ ls) d =
    last_gloss w ls
      (elim (read_entry l) [ none ↦ d | some (v, g) ↦ if str_eqb w v then some g else d ])

lookup-insert :
    (w v g : List ℕ) (es : Entries)
    → lookup (insert v g es) w ≡ (if str_eqb w v then some g else lookup es w)
unfolding lookup insert
lookup-insert w v g [] = refl
lookup-insert w v g ((u, h) ∷ es) = elim (Bool-cases (str_eqb v u)) [
  | inl e ↦ elim (Bool-cases (str_eqb w v)) [
    | inl t ↦ rw (e, t) refl
    | inr n ↦
        let m : str_eqb w u ≡ false = subst (λ r. str_eqb w r ≡ false) (str_eqb→eq v u e) n in
        rw (e, n, m) refl
  ]
  | inr e ↦ elim (Bool-cases (str_eqb w v)) [
    | inl t ↦
        let m : str_eqb w u ≡ false = subst (λ r. str_eqb r u ≡ false) (sym (str_eqb→eq w v t)) e in
        rw (e, m, lookup-insert w v g es, t) refl
    | inr n ↦ rw (e, lookup-insert w v g es, n) refl
  ]
]

load_lines_lem :
    (w : List ℕ) (ls : List (List ℕ)) (es : Entries)
    → lookup (load_lines ls es) w ≡ last_gloss w ls (lookup es w)
unfolding load_lines last_gloss
load_lines_lem w [] es = refl
load_lines_lem w (l ∷ ls) es = elim (Option-cases (read_entry l)) [
  | inl e ↦ rw e (load_lines_lem w ls es)
  | inr ((v, g), e) ↦
      rw e (load_lines_lem w ls (insert v g es) ∙ ap (last_gloss w ls) (lookup-insert w v g es))
]

-- Loading a glossary makes the map that its lines describe: a word has the gloss of the last line that
-- gives it one, and no other word has any.
pub load_lem : (file w : List ℕ) → lookup (load file).0 w ≡ last_gloss w (get_delim b'\n' file) none
unfolding load lookup
load_lem file w = load_lines_lem w (get_delim b'\n' file) []
