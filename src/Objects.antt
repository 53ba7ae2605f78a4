-- ===== src/Objects.antt =====
-- The fake Java objects of harness/jinterop.c: making them (`obj_new`, `str_obj`), their field
-- table (`obj_setf`, `obj_get`), and the JNI field and array accessors that only read or write one
-- object. `now` is what `mono_ms()` reads when a new object is registered.
pub mod Fields
pub mod Fresh
use wetype_ime_linux.Base.{
  ℕ, zero, suc, ◌+◌, ◌*◌, ◌<◌, List, [], ◌∷◌, ◌++◌, Option, none, some, Bool, true, false, not,
  ◌&&◌, ◌||◌, ◌==◌, ltb, leb, if◌then◌else◌, length, get_elem?, set, replicate, take, str_eqb,
  codes,
}
use wetype_ime_linux.Memory.{
  Mem, Cell, obj, arr, bytes, raw, JField, JObj, JArr, JBytes, jo_magic, jb_magic, alloc, free,
  store,
}
use wetype_ime_linux.Registry.{Reg, r_jobj, r_jarr, r_jbytes, reg_add}

-- `obj_get`: the first field of that name.
unfoldable pub find_field : List ℕ → List JField → Option JField
find_field name [] = none
find_field name (x ∷ xs) = if str_eqb x.name name then some x else find_field name xs

-- The first field of that name given anew, in place.
unfoldable pub replace_field : JField → List JField → List JField
replace_field f [] = []
replace_field f (x ∷ xs) = if str_eqb x.name f.name then f ∷ xs else x ∷ replace_field f xs

abbrev pub max_fields : ℕ
max_fields = 48

-- What `obj_setf` leaves in the field table: a field of the name replaced, or one more, or the
-- table as it was when it is full.
unfoldable pub put_field : JField → List JField → List JField
put_field f fs = elim (find_field f.name fs) [
  | some old ↦ replace_field f fs
  | none ↦ if leb max_fields (length fs) then fs else fs ++ f ∷ []
]

-- The string that `obj_setf` frees: the old value of an owned string field, unless it is set again.
unfoldable pub free_old : JField → List JField → Mem → Mem
free_old f fs m = elim (find_field f.name fs) [
  | some old ↦
      if (old.type == b's') && old.owned && not (old.val == f.val) then free old.val m else m
  | none ↦ m
]

-- `obj_setf`.
unfoldable pub obj_setf : ℕ → JField → Mem → Mem
obj_setf p f m = if p == 0 then m else elim (m.cell p) [
  | some (obj o) ↦ store p (obj (record o { f = put_field f o.f })) (free_old f o.f m)
  | _ ↦ record m { fault = true }
]

-- `obj_set`: a field that does not own its value.
abbrev pub plain : List ℕ → ℕ → ℕ → JField
plain name type val = record { name = name; type = type; owned = false; val = val }

unfoldable pub obj_set : ℕ → List ℕ → ℕ → ℕ → Mem → Mem
obj_set p name type val m = obj_setf p (plain name type val) m

-- `obj_get` on the object at `p`.
unfoldable pub obj_get : ℕ → List ℕ → Mem → Option JField
obj_get p name m = elim (m.cell p) [ some (obj o) ↦ find_field name o.f | _ ↦ none ]

-- The end of `obj_new`: NULL when `calloc` failed, or the object registered.
unfoldable pub enroll : ℕ → Reg → ℕ × Mem → ℕ × Reg
enroll now r (p, m) =
    if p == 0 then (0, record r { mem = m }) else (p, reg_add p r_jobj now (record r { mem = m }))

-- `obj_new`: the object's address, or 0 when `calloc` fails.
unfoldable pub obj_new : List ℕ → ℕ → Reg → ℕ × Reg
obj_new cls now r =
    enroll now r (alloc (obj (record { magic = jo_magic; cls = cls; f = [] })) r.mem)

-- `str_obj`: a String object that shares the text at `s`.
unfoldable pub str_obj : ℕ → ℕ → Reg → ℕ × Reg
str_obj s now r =
    let (p, r') = obj_new (codes "java/lang/String") now r in
    (p, record r' { mem = obj_set p (codes ".str") b's' s r'.mem })

-- The first word of what stands at an address: `is_jobj` reads it as an object's `magic`.
unfoldable pub first_word : Option Cell → ℕ
first_word none = 0
first_word (some (obj o)) = o.magic
first_word (some (arr a)) = a.elem
first_word (some (bytes b)) = b.magic
first_word (some (raw [])) = 0
first_word (some (raw (w ∷ ws))) = w

-- `is_jobj`; the address is taken to be NULL or allocated.
unfoldable pub is_jobj : ℕ → Mem → Bool
is_jobj p m = if p == 0 then false else first_word (m.cell p) == jo_magic

-- `F_GetIntField`, `F_GetLongField`, `F_GetBooleanField` (for `i`, `l`, `z`), and `F_GetFloatField`
-- with a float as its bits (`f`): 0 for NULL, a missing field, or a field of another type.
unfoldable pub get_typed : ℕ → ℕ → List ℕ → Mem → ℕ
get_typed type p name m =
    if p == 0
    then 0
    else elim (obj_get p name m) [ some f ↦ if f.type == type then f.val else 0 | none ↦ 0 ]

-- `F_SetIntField`, `F_SetBooleanField`, and `F_SetFloatField` with the float's bits.
unfoldable pub set_typed : ℕ → ℕ → List ℕ → ℕ → Mem → Mem
set_typed type p name v m = if p == 0 then m else obj_set p name type v m

-- `cand_text`: the address of a candidate's text, unpacked from a String object if need be.
unfoldable pub cand_text : ℕ → Mem → ℕ
cand_text c m = if c == 0 then 0 else elim (obj_get c (codes "text") m) [
  | none ↦ 0
  | some f ↦
      if f.val == 0
      then 0
      else if f.type == b's'
      then f.val
      else if f.type == b'o'
      then elim (obj_get f.val (codes ".str") m) [ some sf ↦ sf.val | none ↦ 0 ]
      else 0
]

-- `F_NewByteArray`: it becomes the most recent byte array.
unfoldable pub new_byte_array : ℕ → ℕ → Reg → ℕ × Reg
new_byte_array len now r =
    let m₁ = record (r.mem) { next = suc r.mem.next } in
    let b = r.mem.next in
    if not (r.mem.grants b)
    then (0, record r { mem = m₁ })
    else let (d, m₂) = if ltb 0 len then alloc (raw (replicate len 0)) m₁ else (0, m₁) in
      if ltb 0 len && (d == 0)
      then (0, record r { mem = m₂ })
      else let cell = bytes (record { magic = jb_magic; payload = d; len = len }) in
        let m₃ = record m₂ { cell = λ q. if b == q then some cell else m₂.cell q } in
        (b, reg_add b r_jbytes now (record r { mem = m₃; last_bytes = b }))
