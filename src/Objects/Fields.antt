-- ===== src/Objects/Fields.antt =====
-- The field table of a fake Java object (`obj_setf`, `obj_get` of harness/jinterop.c).
use wetype_ime_linux.Base.{
  ℕ, ◌≤◌, ◌<◌, ◌≡◌, ◌≢◌, refl, ◌⊎◌, inl, inr, List, [], ◌∷◌, ◌++◌, none, some, length,
  length-append, Option-cases, str_eqb→eq, str_eqb_refl, str_eqb_of_ne, arith,
}
use wetype_ime_linux.Memory.{JField}
use wetype_ime_linux.Objects.{find_field, replace_field, put_field, max_fields}

pub find_field_name :
    (name : List ℕ) (fs : List JField) (f : JField) → find_field name fs ≡ some f → f.name ≡ name
unfolding find_field
find_field_name name [] f h = cc
find_field_name name (x ∷ xs) f h =
    ground (arith, find_field_name name xs f, str_eqb→eq x.name name)

find-replace :
    (f : JField) (fs : List JField) (old : JField)
    → find_field f.name fs ≡ some old
    → find_field f.name (replace_field f fs) ≡ some f
unfolding find_field replace_field
find-replace f [] old h = cc
find-replace f (x ∷ xs) old h = ground (arith, find-replace f xs old, str_eqb_refl f.name)

find-replace_ne :
    (f : JField) (name : List ℕ) (fs : List JField)
    → f.name ≢ name
    → find_field name (replace_field f fs) ≡ find_field name fs
unfolding find_field replace_field
find-replace_ne f name [] h = refl
find-replace_ne f name (x ∷ xs) h = ground (
  arith,
  find-replace_ne f name xs h,
  str_eqb→eq x.name f.name,
  str_eqb→eq x.name name,
  str_eqb_of_ne f.name name h,
)

find-append :
    (name : List ℕ) (fs : List JField) (f : JField)
    → find_field name (fs ++ f ∷ [])
      ≡ elim (find_field name fs) [ some x ↦ some x | none ↦ find_field name (f ∷ []) ]
unfolding find_field
find-append name [] f = ground arith
find-append name (x ∷ xs) f = ground (arith, find-append name xs f)

length-replace : (f : JField) (fs : List JField) → length (replace_field f fs) ≡ length fs
unfolding replace_field
length-replace f [] = refl
length-replace f (x ∷ xs) = ground (arith, length-replace f xs)

find-single :
    (f : JField) (name : List ℕ)
    → (find_field f.name (f ∷ []) ≡ some f) × (f.name ≢ name → find_field name (f ∷ []) ≡ none)
unfolding find_field
find-single f name = (rw str_eqb_refl, λ h. rw (str_eqb_of_ne f.name name h))

-- After a field is set it reads back as set, unless its name was new and the table was full; every
-- other name reads as before; and the table never outgrows its 48 slots.
pub find_field-put_field :
    (f : JField) (name : List ℕ) (fs : List JField)
    → length fs ≤ max_fields
    → ((find_field f.name fs ≢ none) ⊎ (length fs < max_fields)
        → find_field f.name (put_field f fs) ≡ some f)
      × (f.name ≢ name → find_field name (put_field f fs) ≡ find_field name fs)
      × (length (put_field f fs) ≤ max_fields)
unfolding put_field
find_field-put_field f name fs h =
    let (self, other) = find-single f name in
    (
      λ room. elim (Option-cases (find_field f.name fs)) [
        | inl e ↦ ground (arith, find-append f.name fs f, self)
        | inr (old, e) ↦ ground (arith, find-replace f fs old e)
      ],
      λ ne. ground (arith, find-replace_ne f name fs ne, find-append name fs f, other ne),
      ground (arith, length-replace f fs, length-append fs (f ∷ [])),
    )
