-- ===== src/Heapscan/Triggers/Budget.antt =====
-- How often the reports of scripts/mtrace2_heapscan.c are made.
use wetype_ime_linux.Base.{
  ℕ, ◌+◌, ◌≡◌, refl, inl, inr, List, [], ◌∷◌, ◌++◌, not, ◌&&◌, ◌==◌, ltb, if◌then◌else◌, Bool-cases,
  arith,
}
use wetype_ime_linux.Heapscan.Globals.{Loaded}
use wetype_ime_linux.Heapscan.Triggers.{
  Trigger, Run, above_zero, is_hit, spend, own_loop, dump_loop, maybe_ownscan, maybe_stackdump,
  allocate, run_allocs,
}

-- How many of the allocations have a size.
abbrev pub uses : ℕ → List ℕ → ℕ
uses size [] = 0
uses size (n ∷ ns) = (if n == size then 1 else 0) + uses size ns

-- The smaller of two numbers.
abbrev pub least : ℕ → ℕ → ℕ
least a b = if ltb a b then a else b

-- How many scans a trigger is good for.
abbrev pub budget : Trigger → ℕ
budget t = if not (t.size == 0) && above_zero t.left then t.left else 0

-- The scans of a trigger in a run: one for each allocation of its size while the count lasts.
abbrev pub due : List ℕ → Trigger → ℕ
due ns t = least (uses t.size ns) (budget t)

-- The scans for a size that the triggers are good for in a run.
abbrev pub all_due : ℕ → List ℕ → List Trigger → ℕ
all_due size ns [] = 0
all_due size ns (t ∷ ts) = (if t.size == size then due ns t else 0) + all_due size ns ts

-- The dumps that the triggers are good for.
abbrev pub all_budgets : List Trigger → ℕ
all_budgets [] = 0
all_budgets (t ∷ ts) = budget t + all_budgets ts

all_due-nil : (size : ℕ) (ts : List Trigger) → all_due size [] ts ≡ 0
all_due-nil size [] = refl
all_due-nil size (t ∷ ts) = ground (arith, all_due-nil size ts)

uses-append : (size : ℕ) (xs ys : List ℕ) → uses size (xs ++ ys) ≡ uses size xs + uses size ys
uses-append size [] ys = omega arith
uses-append size (x ∷ xs) ys = omega (arith, uses-append size xs ys)

-- An allocation makes the scans that are due first.
due-step :
    (size n : ℕ) (ns : List ℕ) (ts : List Trigger)
    → uses size (own_loop n ts).1 + all_due size ns (own_loop n ts).0 ≡ all_due size (n ∷ ns) ts
unfolding own_loop is_hit spend
due-step size n ns [] = refl
due-step size n ns (t ∷ ts) = elim (Bool-cases (is_hit n t)) [
  | inl h ↦ rw h (ground (arith, h, due-step size n ns ts))
  | inr h ↦ rw h (ground (arith, h, due-step size n ns ts))
]

-- A dump takes one from the budget of its trigger.
budget-step :
    (n : ℕ) (ts : List Trigger)
    → (if (dump_loop n ts).1 then 1 else 0) + all_budgets (dump_loop n ts).0 ≡ all_budgets ts
unfolding dump_loop is_hit spend
budget-step n [] = refl
budget-step n (t ∷ ts) = elim (Bool-cases (is_hit n t)) [
  | inl h ↦ rw h (ground (arith, h))
  | inr h ↦ rw h (ground (arith, budget-step n ts))
]

-- In a run of allocations, the owners of the blocks of a size are searched for at the first
-- allocations of that size, as often as the count of each trigger of the size allows and no more;
-- and each dump of the stack takes one from the counts set for the dumps.
pub run_allocs-due :
    (loaded : List Loaded) (size : ℕ) (ns : List ℕ) (r : Run)
    → (uses size (run_allocs loaded ns r).scans ≡ uses size r.scans + all_due size ns r.owners)
      × ((run_allocs loaded ns r).dumps + all_budgets (run_allocs loaded ns r).hits
          ≡ r.dumps + all_budgets r.hits)
unfolding run_allocs allocate maybe_ownscan maybe_stackdump
run_allocs-due loaded size [] r = (omega (arith, all_due-nil size r.owners), refl)
run_allocs-due loaded size (n ∷ ns) r =
    let o = own_loop n r.owners in
    let (scans, dumps) = run_allocs-due loaded size ns (allocate loaded n r) in
    (
      omega (arith, scans, uses-append size r.scans o.1, due-step size n ns r.owners),
      omega (arith, dumps, budget-step n r.hits),
    )
