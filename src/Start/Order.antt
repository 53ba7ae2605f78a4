-- ===== src/Start/Order.antt =====
-- The dictionaries that harness/jinterop.c loads: all that are not to be skipped, the base first.
use wetype_ime_linux.Base.{
  ℕ, suc, ◌+◌, ◌≤◌, ◌≡◌, refl, sym, ap, ap₂, subst, ◌∙◌, inl, inr, List, [], ◌∷◌, ◌++◌, Option,
  Bool, true, not, ltb, Bool-cases, All, length, length-append, arith,
}
use mathlib.Core.List.{Perm, perm_middle}
use mathlib.Core.List.Perm
use wetype_ime_linux.Start.{
  Dict, is_base, pick, load_order, is_skipped, max_dicts, take_dicts, chosen,
}

abbrev kept_by : Option (List ℕ) → Dict → Bool
kept_by skip d = not (is_skipped skip d)

take_dicts_lem :
    (skip : Option (List ℕ)) (dn : ℕ) (ds : List Dict)
    → dn + length ds ≤ max_dicts
    → take_dicts skip dn ds ≡ pick (kept_by skip) ds
unfolding take_dicts pick
take_dicts_lem skip dn [] h = refl
take_dicts_lem skip dn (d ∷ ds) h =
    let room : ltb dn max_dicts ≡ true = ground (arith, h) in
    elim (Bool-cases (is_skipped skip d)) [
      | inl e ↦ rw (room, e) (take_dicts_lem skip dn ds (omega (arith, h)))
      | inr e ↦ rw (room, e) (ap (◌∷◌ d) (take_dicts_lem skip (suc dn) ds (omega (arith, h))))
    ]

pick-append : (p : Dict → Bool) (xs ys : List Dict) → pick p (xs ++ ys) ≡ pick p xs ++ pick p ys
unfolding pick
pick-append p [] ys = refl
pick-append p (x ∷ xs) ys = ground (arith, pick-append p xs ys)

-- What passes a test, with what does not, is the whole list.
pick_perm : (p : Dict → Bool) (xs : List Dict) → Perm (pick p xs ++ pick (λ d. not (p d)) xs) xs
unfolding pick
pick_perm p [] = Perm.refl []
pick_perm p (x ∷ xs) = elim (Bool-cases (p x)) [
  | inl e ↦ rw e (Perm.cons x (pick_perm p xs))
  | inr e ↦ rw e (
      Perm.trans (perm_middle (pick p xs) (pick (λ d. not (p d)) xs))
        (Perm.cons x (pick_perm p xs)))
]

pick_comm : (p q : Dict → Bool) (xs : List Dict) → pick p (pick q xs) ≡ pick q (pick p xs)
unfolding pick
pick_comm p q [] = refl
pick_comm p q (x ∷ xs) = ground (arith, pick_comm p q xs)

pick-All : (p : Dict → Bool) (xs : List Dict) → All (λ d. p d ≡ true) (pick p xs)
unfolding pick
pick-All p [] = tt
pick-All p (x ∷ xs) = elim (Bool-cases (p x)) [
  | inl e ↦ rw e (e, pick-All p xs)
  | inr e ↦ rw e (pick-All p xs)
]

length-load_order : (table : List Dict) → length (load_order table) ≡ length table
unfolding load_order pick
length-load_order table =
    length-append (pick is_base table) (pick (λ d. not (is_base d)) table) ∙ count table
  where
    count :
        (xs : List Dict)
        → length (pick is_base xs) + length (pick (λ d. not (is_base d)) xs) ≡ length xs
    count [] = refl
    count (x ∷ xs) = ground (arith, count xs)

-- What is loaded, in two parts.
pub record IsLoaded (skip : Option (List ℕ)) (table loaded : List Dict) : Type 0 where
  pub bases : List Dict
  pub others : List Dict
  pub parts : loaded ≡ bases ++ others
  pub base_first : All (λ d. is_base d ≡ true) bases
  pub rest_after : All (λ d. not (is_base d) ≡ true) others
  pub all : Perm loaded (pick (λ d. not (is_skipped skip d)) table)

-- Of a table of at most 64 dictionaries each one that is not to be skipped is loaded, once, and the
-- base comes before all the others.
pub chosen-IsLoaded :
    (skip : Option (List ℕ)) (table : List Dict)
    → length table ≤ max_dicts
    → IsLoaded skip table (chosen skip table)
unfolding chosen load_order
chosen-IsLoaded skip table h =
    let k = kept_by skip in
    let other = λ (d : Dict). not (is_base d) in
    let all : chosen skip table ≡ pick k (load_order table) =
      take_dicts_lem skip 0 (load_order table) (omega (arith, h, length-load_order table)) in
    let split : chosen skip table ≡ pick is_base (pick k table) ++ pick other (pick k table) =
      all
      ∙ (pick-append k (pick is_base table) (pick other table)
          ∙ ap₂ ◌++◌ (pick_comm k is_base table) (pick_comm k other table)) in
    record {
      bases = pick is_base (pick k table);
      others = pick other (pick k table);
      parts = split;
      base_first = pick-All is_base (pick k table);
      rest_after = pick-All other (pick k table);
      all = subst (λ l. Perm l (pick k table)) (sym split) (pick_perm is_base (pick k table));
    }
