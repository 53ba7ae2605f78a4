-- ===== src/Base/Tests.antt =====
-- Boolean tests on numbers and byte strings, and the conditional.
use Prim.Native.Nat.{ℕ, ◌<◌, compare, Ordering}
use mathlib.Core.Path.{◌≡◌, refl}
use mathlib.Core.Logic.{◌↔◌, ◌⊎◌, inl, inr, ◌≢◌}
use mathlib.Core.Bool.{Bool, true, false, ◌&&◌}
use mathlib.Core.Option.{Option, none, some}
use mathlib.Core.List.{List, [], ◌∷◌}
use Prim.Native.Char.{code}
use Prim.Native.String.{String}
use native.Mathlib.Omega.{arith}

abbrev pub ltb : ℕ → ℕ → Bool
ltb a b = elim (compare a b) [ Ordering.lt ↦ true | _ ↦ false ]

abbrev pub leb : ℕ → ℕ → Bool
leb a b = elim (compare a b) [ Ordering.gt ↦ false | _ ↦ true ]

infix 50 ◌==◌
abbrev pub ◌==◌ : ℕ → ℕ → Bool
a == b = elim (compare a b) [ Ordering.eq ↦ true | _ ↦ false ]

infix 1 if◌then◌else◌
abbrev pub if◌then◌else◌ {ℓ} : {A : Type ℓ} → Bool → A → A → A
if true then x else y = x
if false then x else y = y

pub ltb→lt : (a b : ℕ) → ltb a b ≡ true → a < b
ltb→lt a b h = ground arith

pub lt→ltb : (a b : ℕ) → a < b → ltb a b ≡ true
lt→ltb a b h = ground arith

pub ==_iff : (a b : ℕ) → ((a == b) ≡ true) ↔ (a ≡ b)
==_iff a b = ground arith

pub ==_refl : (a : ℕ) → (a == a) ≡ true
==_refl a = ground arith

pub ==_of_ne : (a b : ℕ) → a ≢ b → (a == b) ≡ false
==_of_ne a b h = ground arith

pub Bool-cases : (b : Bool) → (b ≡ true) ⊎ (b ≡ false)
Bool-cases true = inl refl
Bool-cases false = inr refl

pub Option-cases {ℓ} : {A : Type ℓ} (o : Option A) → (o ≡ none) ⊎ ((a : A) × (o ≡ some a))
Option-cases none = inl refl
Option-cases (some a) = inr (a, refl)

-- `!strcmp(a, b)` on the bytes of two C strings.
unfoldable pub str_eqb : List ℕ → List ℕ → Bool
str_eqb [] [] = true
str_eqb [] (y ∷ ys) = false
str_eqb (x ∷ xs) [] = false
str_eqb (x ∷ xs) (y ∷ ys) = (x == y) && str_eqb xs ys

pub str_eqb→eq : (xs ys : List ℕ) → str_eqb xs ys ≡ true → xs ≡ ys
unfolding str_eqb
str_eqb→eq [] [] h = refl
str_eqb→eq [] (y ∷ ys) h = ground arith
str_eqb→eq (x ∷ xs) [] h = ground arith
str_eqb→eq (x ∷ xs) (y ∷ ys) h = ground (arith, str_eqb→eq xs ys)

pub str_eqb_refl : (xs : List ℕ) → str_eqb xs xs ≡ true
unfolding str_eqb
str_eqb_refl [] = refl
str_eqb_refl (x ∷ xs) = ground (arith, str_eqb_refl xs)

pub str_eqb_of_ne : (xs ys : List ℕ) → xs ≢ ys → str_eqb xs ys ≡ false
str_eqb_of_ne xs ys h = elim (Bool-cases (str_eqb xs ys)) [
  | inl e ↦ absurd (h (str_eqb→eq xs ys e))
  | inr e ↦ e
]

-- The bytes of an ASCII literal.
abbrev pub codes : String → List ℕ
codes String.[] = []
codes (String.◌∷◌ c s) = code c ∷ codes s

-- What holds of both branches holds of a test's result.
pub if-both {ℓ κ} :
    {A : Type ℓ} (P : A → Type κ) (b : Bool) (t u : A) → P t → P u → P (if b then t else u)
if-both P true t u p q = p
if-both P false t u p q = q

pub if_true {ℓ κ} :
    {A : Type ℓ} (P : A → Type κ) (b : Bool) (t u : A) → b ≡ true → P t → P (if b then t else u)
if_true P true t u h p = p
if_true P false t u h p = absurd (ground (arith, h))

pub if_false {ℓ κ} :
    {A : Type ℓ} (P : A → Type κ) (b : Bool) (t u : A) → b ≡ false → P u → P (if b then t else u)
if_false P true t u h p = absurd (ground (arith, h))
if_false P false t u h p = p
