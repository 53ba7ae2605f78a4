-- ===== src/Access/Strings.antt =====
-- A text on its way through the fake JNI environment of harness/jinterop.c: from the byte array that
-- the engine fills to the String that it makes of it.
use wetype_ime_linux.Base.{
  ℕ, zero, suc, ◌<◌, ◌^◌, ltb, if◌then◌else◌, Bool-cases, inl, inr, length, take-length, ◌≡◌, ◌≢◌,
  refl, sym, ap, subst, ◌∙◌, List, [], ◌∷◌, ◌++◌, some, true, str_eqb_refl, codes, take, ==_refl,
  ==_of_ne, arith,
}
use wetype_ime_linux.Memory.{
  Mem, obj, bytes, raw, JObj, JField, JBytes, jo_magic, alloc, store, update,
}
use wetype_ime_linux.Registry.{Reg, r_jobj, reg_add}
use wetype_ime_linux.Registry.View.{IsTable, reg_add_cases}
use wetype_ime_linux.Objects.{
  obj_setf, obj_get, obj_new, enroll, find_field, put_field, free_old, first_word, is_jobj,
}
use wetype_ime_linux.Objects.Fresh.{IsFresh}
use wetype_ime_linux.Fetch.{c_str, until_nul}
use wetype_ime_linux.Access.{text_in, match_of, text_len, payload_of, string_of, new_object}

until_nul-append : (xs : List ℕ) → until_nul (xs ++ 0 ∷ []) ≡ until_nul xs
unfolding until_nul
until_nul-append [] = refl
until_nul-append (x ∷ xs) = ground (arith, until_nul-append xs)

-- A String object, and the text that it holds.
pub record Holds (o : ℕ) (text : List ℕ) (m : Mem) : Type 0 where
  pub real : o ≢ 0
  pub object : is_jobj o m ≡ true
  pub reads : match_of o m ≡ some text

-- The object that `obj_new` makes where there is memory, before its fields are set.
obj_new_cell :
    (cls : List ℕ) (now : ℕ) (r : Reg)
    → IsTable r
    → 0 < r.mem.next
    → r.mem.grants r.mem.next ≡ true
    → let (o, r') = obj_new cls now r in
      (o ≡ r.mem.next)
      × (r'.mem.cell o ≡ some (obj (record { magic = jo_magic; cls = cls; f = [] })))
      × ((a : ℕ) → a ≢ o → r'.mem.cell a ≡ r.mem.cell a)
unfolding obj_new enroll alloc
obj_new_cell cls now r t p g =
    let n = r.mem.next in
    let ne : n ≢ 0 = λ z. omega (arith, p, z) in
    let blank = obj (record { magic = jo_magic; cls = cls; f = [] }) in
    let m' = record (r.mem) { next = suc n; cell = update r.mem.cell n (some blank) } in
    let r₁ = reg_add n r_jobj now (record r { mem = m' }) in
    let (_, same, _, _) =
      reg_add_cases n r_jobj now (record r { mem = m' }) ne
        (record { fits = t.fits; kept = t.kept }) in
    let q : obj_new cls now r ≡ (n, r₁) = rw (obj_new, enroll, alloc, g, ==_of_ne n 0 ne) refl in
    subst
      (λ (x : ℕ × Reg).
        (x.0 ≡ n)
        × (x.1.mem.cell x.0 ≡ some blank)
        × ((a : ℕ) → a ≢ x.0 → x.1.mem.cell a ≡ r.mem.cell a))
      (sym q)
      (
        refl,
        ap (λ c. c n) same ∙ rw (==_refl n) refl,
        λ a h. ap (λ c. c a) same ∙ rw (==_of_ne n a (λ z. h (sym z))) refl,
      )

-- An object with a text as its one field.
with_text-Holds :
    (o s : ℕ) (x : JObj) (f : JField) (text : List ℕ) (m : Mem)
    → o ≢ 0
    → s ≢ 0
    → x.magic ≡ jo_magic
    → find_field (codes ".str") x.f ≡ some f
    → f.val ≡ s
    → m.cell o ≡ some (obj x)
    → m.cell s ≡ some (raw (text ++ 0 ∷ []))
    → Holds o (until_nul text) m
unfolding is_jobj first_word text_in match_of obj_get c_str
with_text-Holds o s x f text m o_real s_real magic has val at_o at_s =
    let known : is_jobj o m ≡ true = rw (==_of_ne o 0 o_real, at_o, magic) refl in
    let found : text_in o m ≡ some s = rw (text_in, known, at_o, has, val) refl in
    record {
      real = o_real;
      object = known;
      reads = rw (match_of, found, ==_of_ne s 0 s_real, c_str, at_s, until_nul-append text) refl;
    }

-- An object without fields takes the text at `s` for its own.
obj_setf-Holds :
    (o s : ℕ) (cls text : List ℕ) (m : Mem)
    → o ≢ 0
    → s ≢ 0
    → o ≢ s
    → m.cell o ≡ some (obj (record { magic = jo_magic; cls = cls; f = [] }))
    → m.cell s ≡ some (raw (text ++ 0 ∷ []))
    → let f : JField = record { name = codes ".str"; type = b's'; owned = true; val = s } in
      Holds o (until_nul text) (obj_setf o f m)
unfolding obj_setf put_field free_old find_field store
obj_setf-Holds o s cls text m o_real s_real apart at_o at_s =
    let f : JField = record { name = codes ".str"; type = b's'; owned = true; val = s } in
    let x : JObj = record { magic = jo_magic; cls = cls; f = f ∷ [] } in
    let m' = record m { cell = update m.cell o (some (obj x)) } in
    let q : obj_setf o f m ≡ m' = rw (obj_setf, ==_of_ne o 0 o_real, at_o, store, at_o) refl in
    subst (Holds o (until_nul text)) (sym q) (
      with_text-Holds o s x f text m' o_real s_real refl (rw (find_field, str_eqb_refl) refl) refl
        (rw (==_refl o) refl) (rw (==_of_ne o s apart) at_s))

new_object_text :
    (now : ℕ) (r : Reg) (x : JBytes) (ws : List ℕ)
    → IsTable r
    → IsFresh r.mem
    → ((a : ℕ) → r.mem.grants a ≡ true)
    → r.last_bytes ≢ 0
    → r.mem.cell r.last_bytes ≡ some (bytes x)
    → r.mem.cell x.payload ≡ some (raw ws)
    → let (o, r') = new_object (codes "java/lang/String") now r in
      Holds o (until_nul (take (text_len x) ws)) r'.mem
unfolding new_object string_of payload_of alloc
new_object_text now r x ws t f g last at_x at_ws =
    let n = r.mem.next in
    let n_real : n ≢ 0 = λ z. omega (arith, f.positive, z) in
    let text = take (text_len x) ws in
    let m₁ = record (r.mem) {
      next = suc n;
      cell = update r.mem.cell n (some (raw (text ++ 0 ∷ [])));
    } in
    let r₁ = record r { mem = m₁ } in
    let made = obj_new (codes "java/lang/String") now r₁ in
    let f : JField = record { name = codes ".str"; type = b's'; owned = true; val = n } in
    let (o_next, at_o, kept) =
      obj_new_cell (codes "java/lang/String") now r₁ (record { fits = t.fits; kept = t.kept })
        (omega arith) (g (suc n)) in
    let other : n ≢ made.0 = λ z. omega (arith, o_next, z) in
    let q : new_object (codes "java/lang/String") now r
        ≡ (made.0, record made.1 { mem = obj_setf made.0 f made.1.mem }) =
      rw
        (
          new_object,
          str_eqb_refl (codes "java/lang/String"),
          ==_of_ne r.last_bytes 0 last,
          at_x,
          string_of,
          payload_of,
          at_ws,
          alloc,
          g n,
        )
        refl in
    subst (λ (p : ℕ × Reg). Holds p.0 (until_nul text) p.1.mem) (sym q)
      (obj_setf-Holds made.0 n (codes "java/lang/String") text made.1.mem
        (λ z. omega (arith, o_next, z)) n_real (λ z. other (sym z)) at_o
        (kept n other ∙ rw (==_refl n) refl))

take-empty : (n : ℕ) (ws : List ℕ) → length ws ≡ 0 → take n ws ≡ ws
take-empty zero [] h = refl
take-empty (suc n) [] h = refl
take-empty n (w ∷ ws) h = absurd (omega (arith, h))

text_of_len :
    (x : JBytes) (ws : List ℕ)
    → length ws ≡ x.len
    → until_nul (take (text_len x) ws) ≡ (if ltb x.len (2 ^ 20) then until_nul ws else [])
unfolding text_len until_nul
text_of_len x ws h = elim (Bool-cases (ltb x.len (2 ^ 20))) [
  | inr big ↦
      let z : text_len x ≡ 0 = ground (arith, big) in
      ap (λ n. until_nul (take n ws)) z ∙ rw big refl
  | inl small ↦ elim (Bool-cases (ltb 0 x.len)) [
    | inl some_len ↦
        let z : text_len x ≡ length ws = ground (arith, some_len, small, h) in
        ap (λ n. until_nul (take n ws)) z ∙ ap until_nul (take-length ws) ∙ rw small refl
    | inr no_len ↦
        ap until_nul (take-empty (text_len x) ws (ground (arith, no_len, h))) ∙ rw small refl
  ]
]

-- The String that the engine makes after it made the byte array `x`, the one created last, has the
-- text of that array up to the first NUL if the array has less than 1 MiB, and is empty otherwise:
-- where there is memory for it.
pub new_object-Holds :
    (now : ℕ) (r : Reg) (x : JBytes) (ws : List ℕ)
    → IsTable r
    → IsFresh r.mem
    → ((a : ℕ) → r.mem.grants a ≡ true)
    → r.last_bytes ≢ 0
    → r.mem.cell r.last_bytes ≡ some (bytes x)
    → r.mem.cell x.payload ≡ some (raw ws)
    → length ws ≡ x.len
    → let (o, r') = new_object (codes "java/lang/String") now r in
      Holds o (if ltb x.len (2 ^ 20) then until_nul ws else []) r'.mem
new_object-Holds now r x ws t f g last at_x at_ws h =
    let (o, r') = new_object (codes "java/lang/String") now r in
    subst (λ text. Holds o text r'.mem) (text_of_len x ws h)
      (new_object_text now r x ws t f g last at_x at_ws)
