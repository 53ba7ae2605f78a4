-- ===== src/Registry/Lookup.antt =====
-- What `reg_pin` and `reg_release` of harness/jinterop.c do to the list of registered entries.
use wetype_ime_linux.Base.{
  ℕ, zero, suc, ◌+◌, ◌-◌, ◌≤◌, ◌<◌, ◌≡◌, refl, sym, ap, ◌∙◌, ◌⊎◌, inl, inr, ◌≢◌, List, [], ◌∷◌,
  ◌++◌, none, some, Bool, true, false, ◌==◌, Bool-cases, length, get_elem?, set, take, All, arith,
  length-set, get_elem?-take, get_elem?-some, get_elem?_lt, take-set_lt, take-length, take-succ,
  subst, length-take, take-take,
}
use mathlib.Core.List.{Perm, perm_middle, append-nil}
use mathlib.Core.List.Perm
use wetype_ime_linux.Registry.{
  Reg, REnt, cap, find_from, reg_find, unregister, reg_free_obj, reg_release,
}
use wetype_ime_linux.Registry.View.{view}

-- The entry at slot `j`, counted from where the search starts, is the one found.
abbrev Finds : ℕ → ℕ → List REnt → ℕ → Type 0
Finds k i tab p =
    ((find_from k i tab p ≡ none) × All (λ e. e.p ≢ p) (take k tab))
    ⊎ ((j : ℕ) × (e : REnt) × (find_from k i tab p ≡ some (i + j))
        × (j < k)
        × (get_elem? tab j ≡ some e)
        × (e.p ≡ p))

find_from_lem : (k i : ℕ) (tab : List REnt) (p : ℕ) → Finds k i tab p
unfolding find_from
find_from_lem zero i tab p = inl (refl, tt)
find_from_lem (suc k) i [] p = inl (refl, tt)
find_from_lem (suc k) i (e ∷ tab) p = elim (Bool-cases (e.p == p)) [
  | inl hit ↦ inr (0, e, ground arith, omega arith, refl, ground arith)
  | inr miss ↦ elim (find_from_lem k (suc i) tab p) [
    | inl (no_one, others) ↦ inl (rw miss no_one, (ground arith, others))
    | inr (j, e', found, inside, at, eq) ↦
        inr (suc j, e', rw miss (found ∙ ap some (omega arith)), omega arith, at, eq)
  ]
]

split_last :
    (m : ℕ) (xs : List REnt) (last : REnt)
    → length xs ≡ suc m
    → get_elem? xs m ≡ some last
    → xs ≡ take m xs ++ last ∷ []
split_last m xs last h end = sym (take-length xs) ∙ ap (λ k. take k xs) h ∙ take-succ m xs end

-- Taking the last entry into the place of entry `i` removes just that entry.
swap_remove :
    (m i : ℕ) (xs : List REnt) (e last : REnt)
    → length xs ≡ suc m
    → get_elem? xs i ≡ some e
    → get_elem? xs m ≡ some last
    → Perm xs (e ∷ take m (set xs i last))
swap_remove m i [] e last h at end = absurd (omega arith)
swap_remove zero zero (x ∷ []) e last h at end = Perm.cons' (ground arith) Perm.nil
swap_remove zero zero (x ∷ y ∷ ys) e last h at end = absurd (omega arith)
swap_remove zero (suc i) (x ∷ xs) e last h at end = absurd (omega (arith, get_elem?_lt xs i at))
swap_remove (suc m) zero (x ∷ xs) e last h at end =
    let split : xs ≡ take m xs ++ last ∷ [] = split_last m xs last (omega arith) end in
    Perm.cons' (ground arith) (
      subst (λ ys. Perm ys (last ∷ take m xs)) (sym split)
        (subst (λ ys. Perm (take m xs ++ last ∷ []) (last ∷ ys)) (append-nil (take m xs))
          (perm_middle (take m xs) [])))
swap_remove (suc m) (suc i) (x ∷ xs) e last h at end =
    Perm.trans (Perm.cons x (swap_remove m i xs e last (omega arith) at end)) (Perm.swap e x _)

-- Why an address is not released: it is NULL, or no entry has it, or its entry is pinned.
abbrev pub Refused : ℕ → Reg → Type 0
Refused p r =
    (p ≡ 0)
    ⊎ (All (λ (e : REnt). e.p ≢ p) (view r)
        ⊎ ((j : ℕ) × (e : REnt) × (get_elem? (view r) j ≡ some e) × (e.p ≡ p) × (e.pin ≢ 0)))

-- The outcome of `reg_release`: nothing happens to an address that is not registered, or whose
-- entry is pinned; otherwise the entry is taken out, its object freed and counted.
pub data Released (p : ℕ) (r : Reg) : Bool × Reg → Type 0 where
  skipped : {o : Bool × Reg} → Refused p r → o ≡ (false, r) → Released p r o
  released :
      {o : Bool × Reg} (e : REnt) (r' : Reg)
      → e.p ≡ p
      → e.pin ≡ 0
      → Perm (view r) (e ∷ view r')
      → suc r'.n ≡ r.n
      → cap r' ≡ cap r
      → r'.mem ≡ r.mem
      → r'.last_bytes ≡ r.last_bytes
      → o ≡ (true, record (reg_free_obj e r') { freed = suc (reg_free_obj e r').freed })
      → Released p r o

unregister_eq :
    (i : ℕ) (r : Reg) (last : REnt)
    → get_elem? r.tab (r.n - 1) ≡ some last
    → unregister i r ≡ record r { tab = set r.tab i last; n = r.n - 1 }
unfolding unregister
unregister_eq i r last end = rw (end, unregister)

view-unregister :
    (m i : ℕ) (tab : List REnt) (e last : REnt)
    → suc m ≤ length tab
    → i < suc m
    → get_elem? tab i ≡ some e
    → get_elem? tab m ≡ some last
    → Perm (take (suc m) tab) (e ∷ take m (set tab i last))
view-unregister m i tab e last fits h at end =
    subst (λ ys. Perm (take (suc m) tab) (e ∷ ys))
      (ap (take m) (sym (take-set_lt (suc m) i tab last))
        ∙ take-take m (suc m) (set tab i last) (omega arith))
      (swap_remove m i (take (suc m) tab) e last (omega (arith, length-take (suc m) tab))
        (get_elem?-take (suc m) i tab h ∙ at) (get_elem?-take (suc m) m tab (omega arith) ∙ end))

unregister_lem :
    (i : ℕ) (r : Reg) (e : REnt)
    → r.n ≤ cap r
    → i < r.n
    → get_elem? r.tab i ≡ some e
    → let r' = unregister i r in
      Perm (view r) (e ∷ view r')
      × (suc r'.n ≡ r.n)
      × (r'.mem ≡ r.mem)
      × (r'.last_bytes ≡ r.last_bytes)
      × (cap r' ≡ cap r)
unregister_lem i r e v h at =
    let (last, end) = get_elem?-some r.tab (r.n - 1) (omega (arith, v)) in
    let m = r.n - 1 in
    let n-eq : r.n ≡ suc m = omega arith in
    rw (unregister_eq i r last end) (
      subst (λ k. Perm (take k r.tab) (e ∷ take m (set r.tab i last))) (sym n-eq)
          (view-unregister m i r.tab e last (omega (arith, v)) (omega arith) at end),
      omega arith,
      refl,
      refl,
      length-set r.tab i last,
    )

pub reg_release_lem : (p : ℕ) (r : Reg) → r.n ≤ cap r → Released p r (reg_release p r)
unfolding reg_release reg_find
reg_release_lem p r v = elim (Bool-cases (p == 0)) [
  | inl null ↦ skipped (inl (ground (arith, null))) (rw null)
  | inr some_p ↦ elim (find_from_lem r.n 0 r.tab p) [
    | inl (no_one, others) ↦ skipped (inr (inl others)) (rw (some_p, no_one))
    | inr (j, e, found, inside, at, eq) ↦ elim (Bool-cases (e.pin == 0)) [
      | inl free_now ↦
          let u = unregister_lem j r e v inside at in
          released e (unregister j r) eq (ground arith) u.0 u.1 u.4 u.2 u.3 (ground arith)
      | inr pinned ↦
          skipped
            (inr (
              inr (
                j,
                e,
                get_elem?-take r.n j r.tab inside ∙ at,
                eq,
                (λ z. ground (arith, pinned, z)),
              )))
            (ground arith)
    ]
  ]
]
