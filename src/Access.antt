-- ===== src/Access.antt =====
-- The functions of the fake JNI environment of harness/jinterop.c that make or hand over objects:
-- the auto-completion of missing fields, strings, arrays, references and method ids. An argument
-- `now` is the clock when a new object is registered; a class is the index of its token.
pub mod Arrays
pub mod Strings
use wetype_ime_linux.Base.{
  ℕ, zero, suc, ◌+◌, ◌-◌, ◌≤◌, ◌^◌, List, [], ◌∷◌, ◌++◌, Option, none, some, Bool, true, false, not,
  ◌&&◌, ◌||◌, ◌==◌, ltb, leb, if◌then◌else◌, length, get_elem?, set, replicate, take, drop, str_eqb,
  codes,
}
use wetype_ime_linux.Base.Int.{ℤ, pos, negsuc}
use wetype_ime_linux.Memory.{
  Mem, obj, arr, bytes, raw, JField, JArr, JBytes, jb_magic, update, alloc, free, store,
}
use wetype_ime_linux.Registry.{Reg, r_jarr, reg_add, reg_pin}
use wetype_ime_linux.Objects.{
  plain, obj_setf, obj_set, obj_get, obj_new, str_obj, first_word, is_jobj,
}
use wetype_ime_linux.Events.{Cand, pending_input_field, set_new_iterator}
use wetype_ime_linux.Fetch.{c_str}
use wetype_ime_linux.Jni.{Token, Tokens, find_class, token_cache}

-- The static variables of `F_GetObjectField`: the empty string (0 at first), where the empty array
-- stands, the objects made for missing fields, and the address of the literal "".
pub record Statics : Type 0 where
  pub empty_str : ℕ
  pub empty_arr : ℕ
  pub objs : List ℕ
  pub literal : ℕ

abbrev pub max_blanks : ℕ
max_blanks = 32

-- The search in `sigs`. Entry `i` points to the buffer `clsname` of an earlier call, which is gone, so
-- that the read is undefined behaviour: `dead i` is the text that it finds there, if it finds one.
unfoldable pub find_blank : (ℕ → List ℕ) → List ℕ → ℕ → List ℕ → Option ℕ
find_blank dead sig i [] = none
find_blank dead sig i (o ∷ os) =
    let rest = find_blank dead sig (suc i) os in if str_eqb (dead i) sig then some o else rest

unfoldable pub until_semicolon : List ℕ → List ℕ
until_semicolon [] = []
until_semicolon (c ∷ cs) = let rest = until_semicolon cs in if c == b';' then [] else c ∷ rest

-- The class name that is cut out of a signature.
unfoldable pub class_of : List ℕ → List ℕ
class_of sig = take 95 (until_semicolon (drop 1 sig))

-- A new object for a missing field; the code reads through NULL when there is no memory.
unfoldable pub new_blank : List ℕ → ℕ → Statics → Reg → ℕ × Statics × Reg
new_blank sig now b r =
    let (o, r₁) = obj_new (class_of sig) now r in
    if o == 0
    then (0, b, record r₁ { mem = record (r₁.mem) { fault = true } })
    else (o, record b { objs = b.objs ++ o ∷ [] }, reg_pin o (pos 1) r₁)

unfoldable pub blank_object : (ℕ → List ℕ) → List ℕ → ℕ → Statics → Reg → ℕ × Statics × Reg
blank_object dead sig now b r = elim (find_blank dead sig 0 b.objs) [
  | some o ↦ (o, b, r)
  | none ↦ if ltb (length b.objs) max_blanks then new_blank sig now b r else (0, b, r)
]

unfoldable pub blank_string : ℕ → Statics → Reg → ℕ × Statics × Reg
blank_string now b r =
    let (o, r₁) = str_obj b.literal now r in
    if b.empty_str == 0
    then (o, record b { empty_str = o }, reg_pin o (pos 1) r₁)
    else (b.empty_str, b, r)

-- The static array, emptied.
unfoldable pub blank_array : Statics → Reg → ℕ × Statics × Reg
blank_array b r =
    let cell = some (arr (record { elem = 0; len = 0 })) in
    (
      b.empty_arr,
      b,
      record r { mem = record (r.mem) { cell = update r.mem.cell b.empty_arr cell } },
    )

abbrev pub head_is : ℕ → List ℕ → Bool
head_is x [] = false
head_is x (c ∷ cs) = c == x

-- What a missing field reads as, by its signature.
unfoldable pub blank : (ℕ → List ℕ) → List ℕ → ℕ → Statics → Reg → ℕ × Statics × Reg
blank dead sig now b r =
    if str_eqb sig (codes "Ljava/lang/String;")
    then blank_string now b r
    else if head_is b'[' sig
    then blank_array b r
    else if head_is b'L' sig
    then blank_object dead sig now b r
    else (0, b, r)

-- `F_GetObjectField`.
unfoldable pub get_object_field :
    (ℕ → List ℕ) → ℕ → List ℕ → List ℕ → ℕ → Statics → Reg → ℕ × Statics × Reg
get_object_field dead p name sig now b r =
    if p == 0 then (0, b, r) else elim (obj_get p name r.mem) [
      | none ↦ blank dead sig now b r
      | some f ↦
          if f.type == b's'
          then (let (s, r₁) = str_obj f.val now r in (s, b, r₁))
          else if f.type == b'o'
          then (f.val, b, r)
          else blank dead sig now b r
    ]

-- The text of a String object: NULL for no object of that kind.
unfoldable pub text_in : ℕ → Mem → Option ℕ
text_in v m =
    if is_jobj v m
    then elim (obj_get v (codes ".str") m) [ some f ↦ some f.val | none ↦ none ]
    else none

-- The text that `pending_input_field` reads.
unfoldable pub match_of : ℕ → Mem → Option (List ℕ)
match_of v m = elim (text_in v m) [
  | none ↦ none
  | some s ↦ if s == 0 then none else some (c_str s m)
]

-- `F_SetObjectField`: a String object is unpacked to its text, which it still owns.
unfoldable pub set_object_field : Bool → ℕ → List ℕ → ℕ → Reg → Cand → Reg × Cand
set_object_field daemon p name v r c = if not (is_jobj p r.mem) then (r, c) else (
  record r {
    mem = elim (text_in v r.mem) [
      | some s ↦ obj_set p name b's' s r.mem
      | none ↦ obj_set p name b'o' v r.mem
    ];
  },
  if daemon then pending_input_field name (match_of v r.mem) c else c,
)

-- `F_SetLongField`.
unfoldable pub set_long_field : Bool → ℕ → List ℕ → ℕ → Reg → Cand → Reg × Cand
set_long_field daemon p name v r c = (
  if p == 0 then r else record r { mem = obj_set p name b'l' v r.mem },
  if not (str_eqb name (codes "newIterator")) || (v == 0)
      then c
      else if daemon
      then set_new_iterator v c
      else record c { last_iterator = v },
)

-- `F_NewStringUTF`; NULL counts as "", whose address `literal` is.
unfoldable pub new_string_utf : ℕ → Statics → ℕ → Reg → ℕ × Reg
new_string_utf s b now r = str_obj (if s == 0 then b.literal else s) now r

-- `F_GetStringUTFChars`: a copy of the text, which belongs to the caller.
unfoldable pub get_string_utf_chars : ℕ → Mem → ℕ × Mem
get_string_utf_chars p m =
    let text : List ℕ = elim (obj_get p (codes ".str") m) [ some f ↦ c_str f.val m | none ↦ [] ] in
    if p == 0 then (0, m) else alloc (raw (text ++ 0 ∷ [])) m

-- The name of a class; "?" for none.
unfoldable pub cls_name : Option ℕ → List (List ℕ) → List ℕ
cls_name none reg = codes "?"
cls_name (some i) reg = elim (get_elem? reg i) [ some name ↦ name | none ↦ codes "?" ]

-- How much of the latest byte array becomes a text.
unfoldable pub text_len : JBytes → ℕ
text_len x = if ltb 0 x.len && ltb x.len (2 ^ 20) then x.len else 0

-- The bytes that stand in an array, or zeroes where it has none.
unfoldable pub payload_of : JBytes → Mem → List ℕ
payload_of x m = elim (m.cell x.payload) [
  | some (raw ws) ↦ take (text_len x) ws
  | _ ↦ replicate (text_len x) 0
]

-- A String made of the byte array `x`; its text, for which there is memory, belongs to it.
unfoldable pub string_of : JBytes → ℕ → Reg → ℕ × Reg
string_of x now r =
    let (s, m₁) = alloc (raw (payload_of x r.mem ++ 0 ∷ [])) r.mem in
    let (o, r₁) = obj_new (codes "java/lang/String") now (record r { mem = m₁ }) in
    let f : JField = record { name = codes ".str"; type = b's'; owned = true; val = s } in
    (o, record r₁ { mem = obj_setf o f r₁.mem })

-- `F_NewObject`: a String takes the bytes of the latest byte array, if there is one.
unfoldable pub new_object : List ℕ → ℕ → Reg → ℕ × Reg
new_object cls now r =
    if not (str_eqb cls (codes "java/lang/String")) || (r.last_bytes == 0)
    then obj_new cls now r
    else elim (r.mem.cell r.last_bytes) [
      | some (bytes x) ↦ string_of x now r
      | _ ↦ (0, record r { mem = record (r.mem) { fault = true } })
    ]

-- `F_AllocObject`.
unfoldable pub alloc_object : Option ℕ → List (List ℕ) → ℕ → Reg → ℕ × Reg
alloc_object cls reg now r = obj_new (cls_name cls reg) now r

-- `F_GetMethodID` and `F_GetStaticMethodID`.
unfoldable pub get_method_id : ℕ → List ℕ → List ℕ → Tokens → Option Token × Tokens
get_method_id cls name sig s = token_cache cls name sig b'm' s

unfoldable pub get_static_method_id : ℕ → List ℕ → List ℕ → Tokens → Option Token × Tokens
get_static_method_id cls name sig s = token_cache cls name sig b'M' s

-- `F_GetObjectClass`.
unfoldable pub get_object_class : ℕ → Mem → List (List ℕ) → Option ℕ × List (List ℕ)
get_object_class p m reg = elim (m.cell p) [
  | some (obj o) ↦ if p == 0 then (none, reg) else find_class o.cls reg
  | _ ↦ (none, reg)
]

-- `F_NewGlobalRef` and `F_DeleteGlobalRef`.
unfoldable pub new_global_ref : ℕ → Reg → ℕ × Reg
new_global_ref p r = (p, reg_pin p (pos 1) r)

unfoldable pub delete_global_ref : ℕ → Reg → Reg
delete_global_ref p r = reg_pin p (negsuc 0) r

-- `F_GetArrayLength`: a byte array is known by its magic number.
unfoldable pub get_array_length : ℕ → Mem → ℕ
get_array_length p m =
    if p == 0
    then 0
    else if first_word (m.cell p) == jb_magic
    then elim (m.cell p) [ some (bytes x) ↦ x.len | _ ↦ 0 ]
    else elim (m.cell p) [ some (arr a) ↦ a.len | _ ↦ 0 ]

-- `F_NewObjectArray`, for a length below 2^31.
unfoldable pub new_object_array : ℕ → ℕ → Reg → ℕ × Reg
new_object_array len now r =
    let a = r.mem.next in
    let m₁ = record (r.mem) { next = suc r.mem.next } in
    let (e, m₂) = alloc (raw (replicate (if ltb 0 len then len else 1) 0)) m₁ in
    let m₃ = record m₂ { cell = update m₂.cell a (some (arr (record { elem = e; len = len }))) } in
    if not (r.mem.grants a)
    then (0, record r { mem = m₁ })
    else if e == 0
    then (0, record r { mem = m₂ })
    else (a, reg_add a r_jarr now (record r { mem = m₃ }))

-- The array at `p`, when the index is one of its own.
unfoldable pub slot_of : ℕ → ℤ → Mem → Option (JArr × ℕ)
slot_of p (negsuc i) m = none
slot_of p (pos i) m =
    if p == 0
    then none
    else elim (m.cell p) [ some (arr a) ↦ if ltb i a.len then some (a, i) else none | _ ↦ none ]

-- `F_SetObjectArrayElement`.
unfoldable pub set_object_array_element : ℕ → ℤ → ℕ → Mem → Mem
set_object_array_element p idx v m = elim (slot_of p idx m) [
  | none ↦ m
  | some (a, i) ↦ elim (m.cell a.elem) [
    | some (raw ws) ↦ store a.elem (raw (set ws i v)) m
    | _ ↦ record m { fault = true }
  ]
]

-- `F_GetObjectArrayElement`.
unfoldable pub get_object_array_element : ℕ → ℤ → Mem → ℕ
get_object_array_element p idx m = elim (slot_of p idx m) [
  | none ↦ 0
  | some (a, i) ↦ elim (m.cell a.elem) [
    | some (raw ws) ↦ elim (get_elem? ws i) [ some v ↦ v | none ↦ 0 ]
    | _ ↦ 0
  ]
]

-- `memcpy(data + start, buf, len)` on the bytes that stand there.
unfoldable pub splice : ℕ → ℕ → List ℕ → List ℕ → List ℕ
splice start len buf ws = take start ws ++ (take len buf ++ drop (start + len) ws)

-- `F_SetByteArrayRegion`; `buf` is `none` for NULL. A sum past the range of a `long` is
-- taken to wrap around to below 0, which passes the test, and the copy goes out of bounds.
unfoldable pub set_byte_array_region : ℕ → ℤ → ℤ → Option (List ℕ) → Mem → Mem
set_byte_array_region p (pos start) (pos len) (some buf) m = elim (m.cell p) [
  | some (bytes x) ↦
      let sum = start + len in
      if (p == 0) || (x.payload == 0) || (ltb sum (2 ^ 63) && ltb x.len sum)
      then m
      else if leb (2 ^ 63) sum
      then record m { fault = true }
      else elim (m.cell x.payload) [
        | some (raw ws) ↦ store x.payload (raw (splice start len buf ws)) m
        | _ ↦ record m { fault = true }
      ]
  | _ ↦ m
]
set_byte_array_region p start len buf m = m

-- `F_GetByteArrayElements`: the address of the bytes themselves.
unfoldable pub get_byte_array_elements : ℕ → Mem → ℕ
get_byte_array_elements p m = elim (m.cell p) [ some (bytes x) ↦ x.payload | _ ↦ 0 ]
