-- ===== src/Jni/Classes.antt =====
-- A class, or a field or method, has one token in harness/jinterop.c, and a token keeps its meaning.
use wetype_ime_linux.Base.{
  ℕ, zero, suc, ◌+◌, ◌≤◌, ◌≡◌, refl, sym, ap, subst, ◌∙◌, inl, inr, List, [], ◌∷◌, ◌++◌, Option,
  none, some, ltb, Bool-cases, Option-cases, length, length-append, get_elem?, str_eqb, str_eqb→eq,
  str_eqb_refl, arith,
}
use wetype_ime_linux.Jni.{max_classes, class_index, find_class}

get_elem?-append_lt :
    {A : Type 0} (xs ys : List A) (i : ℕ) {x : A}
    → get_elem? xs i ≡ some x
    → get_elem? (xs ++ ys) i ≡ some x
get_elem?-append_lt [] ys i h = ground (arith, h)
get_elem?-append_lt (x ∷ xs) ys zero h = h
get_elem?-append_lt (x ∷ xs) ys (suc i) h = get_elem?-append_lt xs ys i h

get_elem?-append_length :
    {A : Type 0} (xs : List A) (x : A) → get_elem? (xs ++ x ∷ []) (length xs) ≡ some x
get_elem?-append_length [] x = refl
get_elem?-append_length (y ∷ xs) x = get_elem?-append_length xs x

class_index_lem :
    (i : ℕ) (name : List ℕ) (xs : List (List ℕ)) (j : ℕ)
    → class_index i name xs ≡ some j
    → (k : ℕ) × (j ≡ i + k) × (get_elem? xs k ≡ some name)
unfolding class_index
class_index_lem i name [] j h = cc
class_index_lem i name (x ∷ xs) j h = elim (Bool-cases (str_eqb x name)) [
  | inl e ↦
      let q : class_index i name (x ∷ xs) ≡ some i = rw e in
      (0, ground (arith, sym q ∙ h), ap some (str_eqb→eq x name e))
  | inr e ↦
      let q : class_index i name (x ∷ xs) ≡ class_index (suc i) name xs = rw e in
      let (k, eq, at) = class_index_lem (suc i) name xs j (sym q ∙ h) in
      (suc k, omega (arith, eq), at)
]

class_index-append :
    (i : ℕ) (name : List ℕ) (xs : List (List ℕ))
    → class_index i name xs ≡ none
    → class_index i name (xs ++ name ∷ []) ≡ some (i + length xs)
unfolding class_index
class_index-append i name [] h = rw (str_eqb_refl name) (ap some (omega arith))
class_index-append i name (x ∷ xs) h = elim (Bool-cases (str_eqb x name)) [
  | inl e ↦ let q : class_index i name (x ∷ xs) ≡ some i = rw e in cc
  | inr e ↦
      let q : class_index i name (x ∷ xs) ≡ class_index (suc i) name xs = rw e in
      rw e (class_index-append (suc i) name xs (sym q ∙ h) ∙ ap some (omega arith))
]

-- A token for a name, in the registry that gave it, next to the registry before.
pub record Named (name : List ℕ) (reg : List (List ℕ)) (i : ℕ) (reg' : List (List ℕ)) : Type 0 where
  pub names : get_elem? reg' i ≡ some name
  pub keeps : (j : ℕ) (n : List ℕ) → get_elem? reg j ≡ some n → get_elem? reg' j ≡ some n
  pub again : find_class name reg' ≡ (some i, reg')
  pub fits : length reg' ≤ max_classes

found_now :
    (name : List ℕ) (reg : List (List ℕ)) (i k : ℕ) (reg' : List (List ℕ))
    → find_class name reg ≡ (some k, reg')
    → (find_class name reg).0 ≡ some i
    → Named name reg k reg'
    → Named name reg i (find_class name reg).1
found_now name reg i k reg' q h n =
    let same : k ≡ i =
      ap (λ o. elim o [ none ↦ k | some x ↦ x ])
        (ap (λ (o : Option ℕ × List (List ℕ)). o.0) (sym q) ∙ h) in
    subst (λ x. Named name reg x (find_class name reg).1) same
      (subst (Named name reg k) (ap (λ (o : Option ℕ × List (List ℕ)). o.1) (sym q)) n)

-- A class that is found has one token: its slot holds the name, every token given before still has
-- its name, asking again gives the same token and changes nothing, and the registry never
-- outgrows its 2048 slots.
pub find_class_lem :
    (name : List ℕ) (reg : List (List ℕ)) (i : ℕ)
    → length reg ≤ max_classes
    → (find_class name reg).0 ≡ some i
    → Named name reg i (find_class name reg).1
find_class_lem name reg i b h = elim (Option-cases (class_index 0 name reg)) [
  | inr (k, y) ↦
      let q : find_class name reg ≡ (some k, reg) = unfold find_class in rw (find_class, y) in
      let (j, eq, at) = class_index_lem 0 name reg k y in
      let same : j ≡ k = omega (arith, eq) in
      found_now name reg i k reg q h (record {
        names = subst (λ x. get_elem? reg x ≡ some name) same at;
        keeps = λ j n z. z;
        again = q;
        fits = b;
      })
  | inl y ↦ elim (Bool-cases (ltb (length reg) max_classes)) [
    | inr full ↦
        let q : find_class name reg ≡ (none, reg) = unfold find_class in rw (find_class, y, full) in
        let z : none ≡ some i = ap (λ (o : Option ℕ × List (List ℕ)). o.0) (sym q) ∙ h in
        absurd (ground (arith, z))
    | inl room ↦
        let reg' = reg ++ name ∷ [] in
        let q : find_class name reg ≡ (some (length reg), reg') =
          unfold find_class in rw (find_class, y, room) in
        let y' : class_index 0 name reg' ≡ some (length reg) =
          class_index-append 0 name reg y ∙ ap some (omega arith) in
        found_now name reg i (length reg) reg' q h (record {
          names = get_elem?-append_length reg name;
          keeps = λ j n z. get_elem?-append_lt reg (name ∷ []) j z;
          again = unfold find_class in rw (find_class, y');
          fits = ground (arith, room, length-append reg (name ∷ []));
        })
  ]
]
