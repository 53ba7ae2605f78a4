-- ===== src/Fetch.antt =====
-- `daemon_fetch_cands` of harness/jinterop.c: the pages of candidates that the engine gives for an
-- iterator, the texts and ids kept for a later selection, and the release of the pages' objects.
-- The engine's `candidate_get_n` is the argument `get_n`: for each page, the array's address (0 for
-- NULL) and the registry with the objects that it made. The copies of the ids are the daemon's own
-- buffers that nothing else points to, so a copy is its bytes; its `malloc` may be refused.
pub mod Choices
pub mod Bounds
use wetype_ime_linux.Base.{
  ℕ, zero, suc, ◌+◌, ◌-◌, ◌/◌, ◌%◌, ◌^◌, List, [], ◌∷◌, ◌++◌, Option, none, some, Bool, true, false,
  not, ◌&&◌, ◌||◌, ◌==◌, ltb, leb, if◌then◌else◌, length, take, codes,
}
use wetype_ime_linux.Base.Int.{ℤ, pos, negsuc}
use wetype_ime_linux.Memory.{Mem, Cell, obj, arr, bytes, raw, JField, jb_magic}
use wetype_ime_linux.Registry.{Reg, reg_release}
use wetype_ime_linux.Objects.{obj_get, is_jobj, first_word, cand_text}
use wetype_ime_linux.Wait.{free_it, is_empty}

abbrev pub max_cand_limit : ℕ
max_cand_limit = 72

-- `max_cand`: the environment's setting, kept between 10 and 72; `none` is no setting.
unfoldable pub max_cand : Option ℤ → ℕ
max_cand none = max_cand_limit
max_cand (some (negsuc n)) = 10
max_cand (some (pos n)) =
    if ltb n 10 then 10 else if ltb max_cand_limit n then max_cand_limit else n

-- One entry of `g_ct`, `g_cid_buf` and `g_ccover`.
pub record Choice : Type 0 where
  pub text : List ℕ
  pub id : Option (List ℕ)
  pub cover : ℤ

-- `a->len`, and `a->elem[0 .. a->len)`.
unfoldable pub arr_len : ℕ → Mem → ℕ
arr_len a m = elim (m.cell a) [ some (arr x) ↦ x.len | _ ↦ 0 ]

unfoldable pub elems : ℕ → Mem → List ℕ
elems a m = elim (m.cell a) [
  | some (arr x) ↦ elim (m.cell x.elem) [ some (raw ws) ↦ take x.len ws | _ ↦ [] ]
  | _ ↦ []
]

-- The page loop: at most `k` more pages, up to NULL or to a page of fewer than ten.
unfoldable pub get_pages : (ℕ → Reg → ℕ × Reg) → ℕ → ℕ → Reg → List ℕ × Reg
get_pages get_n zero b r = ([], r)
get_pages get_n (suc k) b r =
    let (a, r') = get_n b r in
    let (more, r'') = get_pages get_n k (suc b) r' in
    if a == 0 then ([], r') else if ltb (arr_len a r'.mem) 10 then (a ∷ [], r') else (a ∷ more, r'')

-- The bytes of the C string at an address.
unfoldable pub until_nul : List ℕ → List ℕ
until_nul [] = []
until_nul (c ∷ cs) = if c == 0 then [] else c ∷ until_nul cs

unfoldable pub c_str : ℕ → Mem → List ℕ
c_str p m = elim (m.cell p) [ some (raw ws) ↦ until_nul ws | _ ↦ [] ]

-- `cand_text(c)`, or no bytes for NULL.
unfoldable pub text_of : ℕ → Mem → List ℕ
text_of c m = c_str (cand_text c m) m

-- The address in an object's field `id`, or 0.
unfoldable pub id_of : ℕ → Mem → ℕ
id_of c m = elim (obj_get c (codes "id") m) [
  | some f ↦ if f.type == b'o' then f.val else 0
  | none ↦ 0
]

-- The bytes that are copied from an id: of a byte array that is neither empty nor over 1 MiB.
unfoldable pub id_bytes : ℕ → Mem → Option (List ℕ)
id_bytes p m = elim (m.cell p) [
  | some (bytes b) ↦
      if not (p == 0) && (b.magic == jb_magic) && ltb 0 b.len && leb b.len (2 ^ 20)
      then elim (m.cell b.payload) [ some (raw ws) ↦ some (take b.len ws) | _ ↦ some [] ]
      else none
  | _ ↦ none
]

-- `(int)(long)v`.
unfoldable pub to_int : ℕ → ℤ
to_int v = let w = v % 2 ^ 32 in if ltb w (2 ^ 31) then pos w else negsuc (2 ^ 32 - w - 1)

unfoldable pub cover_of : ℕ → Mem → ℤ
cover_of c m = elim (obj_get c (codes "cover_input_len") m) [
  | some f ↦ if f.type == b'i' then to_int f.val else pos 0
  | none ↦ pos 0
]

-- `malloc` of a copy of these bytes.
unfoldable pub copy_id : Option (List ℕ) → Mem → Option (List ℕ) × Mem
copy_id none m = (none, m)
copy_id (some bs) m =
    let m' = record m { next = suc m.next } in if m.grants m.next then (some bs, m') else (none, m')

-- The body of the loop over a page's elements: the choices grow by one, or stay.
unfoldable pub add_choice : ℕ → List Choice × Mem → List Choice × Mem
add_choice c (cs, m) =
    if is_empty (text_of c m)
    then (cs, m)
    else let (id, m') = copy_id (id_bytes (id_of c m) m) m in
      (cs ++ record { text = take 255 (text_of c m); id = id; cover = cover_of c m } ∷ [], m')

-- The loop over the elements, while there is room for a choice.
unfoldable pub add_choices : ℕ → List ℕ → List Choice × Mem → List Choice × Mem
add_choices limit [] s = s
add_choices limit (c ∷ cs) s =
    let rest = add_choices limit cs (add_choice c s) in if ltb (length s.0) limit then rest else s

-- The loop over the pages.
unfoldable pub add_pages : ℕ → List ℕ → List Choice × Mem → List Choice × Mem
add_pages limit [] s = s
add_pages limit (a ∷ as') s = add_pages limit as' (add_choices limit (elems a s.1) s)

-- The pointers of a page as the search for repetitions meets them: its elements, then itself.
unfoldable pub pointers : List ℕ → Mem → List ℕ
pointers [] m = []
pointers (a ∷ as') m = elems a m ++ a ∷ pointers as' m

unfoldable pub seen_before : ℕ → List ℕ → Bool
seen_before p [] = false
seen_before p (q ∷ qs) = (q == p) || seen_before p qs

-- The size of the array `seen`.
abbrev pub seen_size : ℕ
seen_size = 79

-- The search for a repeated pointer, with those seen so far.
unfoldable pub has_dup : List ℕ → List ℕ → Bool
has_dup seen [] = false
has_dup seen (p ∷ ps) =
    if seen_before p seen
    then true
    else has_dup (if ltb (length seen) seen_size then seen ++ p ∷ [] else seen) ps

-- The release of one candidate and its id.
unfoldable pub release_cand : ℕ → Reg → Reg
release_cand c r =
    if not (is_jobj c r.mem) then r else (reg_release c (reg_release (id_of c r.mem) r).1).1

unfoldable pub release_cands : List ℕ → Reg → Reg
release_cands [] r = r
release_cands (c ∷ cs) r = release_cands cs (release_cand c r)

-- The release of the pages, each with its elements first.
unfoldable pub release_pages : List ℕ → Reg → Reg
release_pages [] r = r
release_pages (a ∷ as') r = release_pages as' (reg_release a (release_cands (elems a r.mem) r)).1

-- The candidate cache, the iterator in use and the log of deleted iterators.
pub record Fetched : Type 0 where
  pub choices : List Choice
  pub cur_it : ℕ
  pub deleted : List ℕ
  pub reg : Reg

-- `cid_copies_clear` with `g_ct_n = 0`.
unfoldable pub clear_choices : Fetched → Fetched
clear_choices s = record s { choices = [] }

-- `daemon_fetch_cands`; `get_n` is `none` when the engine has no such function. The result, `g_ct_n`,
-- is the number of choices.
unfoldable pub fetch_cands : Option ℤ → Option (ℕ → Reg → ℕ × Reg) → ℕ → Fetched → Fetched
fetch_cands setting none it s = clear_choices s
fetch_cands setting (some get_n) it s =
    if it == 0
    then clear_choices s
    else let limit = max_cand setting in
      let (pages, r₁) = get_pages get_n (limit / 10) 0 s.reg in
      let (cs, m₂) = add_pages limit pages ([], r₁.mem) in
      let r₂ = record r₁ { mem = m₂ } in
      record {
        choices = cs;
        cur_it = it;
        deleted = free_it it s.cur_it s.deleted;
        reg = if has_dup [] (pointers pages m₂) then r₂ else release_pages pages r₂;
      }
