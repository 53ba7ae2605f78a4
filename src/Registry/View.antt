-- ===== src/Registry/View.antt =====
-- The registry table of harness/jinterop.c as the list of its entries, and what each `reg_*`
-- function does to that list.
use wetype_ime_linux.Base.{
  ℕ, zero, suc, ◌+◌, ◌-◌, ◌*◌, ◌≤◌, ◌<◌, ◌≡◌, refl, sym, ap, ap₂, ◌∙◌, ◌⊎◌, inl, inr, ◌≢◌, List, [],
  ◌∷◌, ◌++◌, Option, some, Bool, true, false, not, ◌==◌, Bool-cases, length, get_elem?, take, drop,
  filter, replicate, arith, length-set, length-append, length-replicate, take-append_le,
  take-set_end, drop-eq-cons, drop-set_lt, get_elem?-some, get_elem?_lt, filter-cons, take-take,
  drop-take,
}
use mathlib.Core.List.{append_assoc, append-nil}
use wetype_ime_linux.Base.Int.{ℤ}
use wetype_ime_linux.Memory.{Cell, obj, bytes, arr}
use wetype_ime_linux.Registry.{
  r_jobj, r_jarr, r_jbytes, free_cell, Reg, REnt, RKind, Scan, cap, grow, reg_add, is_dead,
  sweep_round, sweep_loop, sweep_scan, unused, reg_free_obj, free_dead, reg_sweep,
}

-- The entries in use, oldest slot first.
abbrev pub view : Reg → List REnt
view r = take r.n r.tab

-- The table's sizes: the slots in use are allocated, and the kept ones are in use.
pub record IsTable (r : Reg) : Type 0 where
  pub fits : r.n ≤ cap r
  pub kept : r.keep_from ≤ r.n

-- Room for one more entry is there, or is made by doubling.
grow_lem :
    (r : Reg)
    → r.n ≤ cap r
    → (r.n < cap r) ⊎ (r.mem.grants r.mem.next ≡ true)
    → ((grow r).0 ≡ true)
      × (view (grow r).1 ≡ view r)
      × ((grow r).1.n ≡ r.n)
      × ((grow r).1.keep_from ≡ r.keep_from)
      × (r.n < cap (grow r).1)
unfolding grow
grow_lem r fits (inl room) = ground arith
grow_lem r fits (inr ok) = ground (
  arith,
  take-append_le r.n r.tab (replicate (4096 - cap r) unused) fits,
  take-append_le r.n r.tab (replicate (cap r * 2 - cap r) unused) fits,
  length-append r.tab (replicate (4096 - cap r) unused),
  length-append r.tab (replicate (cap r * 2 - cap r) unused),
  length-replicate (4096 - cap r) unused,
  length-replicate (cap r * 2 - cap r) unused,
)

-- `reg_add` appends the entry, unless it must grow the table and `realloc` fails.
pub view-reg_add :
    (p : ℕ) (k : RKind) (now : ℕ) (r : Reg)
    → p ≢ 0
    → IsTable r
    → (r.n < cap r) ⊎ (r.mem.grants r.mem.next ≡ true)
    → (view (reg_add p k now r) ≡ view r ++ record { p = p; k = k; t = now; pin = 0 } ∷ [])
      × IsTable (reg_add p k now r)
unfolding reg_add
view-reg_add p k now r h v room =
    let r' = (grow r).1 in
    ground (
      arith,
      grow_lem r v.fits room,
      take-set_end r'.n r'.tab (record { p = p; k = k; t = now; pin = 0 }),
      length-set r'.tab r'.n (record { p = p; k = k; t = now; pin = 0 }),
    )

module _ (now : ℕ) (grace : ℤ) where
  abbrev pub dead_of : List REnt → List REnt
  dead_of = filter (is_dead now grace)

  abbrev pub alive_of : List REnt → List REnt
  alive_of = filter (λ e. not (is_dead now grace e))

  sweep_round_lem :
      (i : ℕ) (s : Scan) (e : REnt)
      → s.w ≤ i
      → get_elem? s.tab i ≡ some e
      → let s' = sweep_round now grace i s in
        (take s'.w s'.tab ≡ take s.w s.tab ++ alive_of (e ∷ []))
        × (s'.dead ≡ s.dead ++ dead_of (e ∷ []))
        × (drop (suc i) s'.tab ≡ drop (suc i) s.tab)
        × (length s'.tab ≡ length s.tab)
        × (s.w ≤ s'.w)
        × (s'.w ≤ suc i)
  unfolding sweep_round
  sweep_round_lem i s e h at = ground (
    arith,
    get_elem?_lt s.tab i at,
    append-nil (take s.w s.tab),
    append-nil s.dead,
    take-set_end s.w s.tab e,
    drop-set_lt (suc i) s.w s.tab e,
    length-set s.tab s.w e,
  )

  -- What the round at slot `i` sorts out comes before what the later rounds do.
  join :
      (p : REnt → Bool) (k i : ℕ) (tab : List REnt) (e : REnt) (xs : List REnt)
      → get_elem? tab i ≡ some e
      → (xs ++ filter p (e ∷ [])) ++ filter p (take k (drop (suc i) tab))
        ≡ xs ++ filter p (take (suc k) (drop i tab))
  join p k i tab e xs at =
      rw (drop-eq-cons tab i at, append_assoc)
        (ap (◌++◌ xs) (sym (filter-cons p e (take k (drop (suc i) tab)))))

  -- The rounds of the sweep: survivors are packed in order behind those kept so far, the dead are
  -- listed in order.
  pub sweep_loop_lem :
      (k i : ℕ) (s : Scan)
      → s.w ≤ i
      → i + k ≤ length s.tab
      → let s' = sweep_loop now grace k i s in
        (take s'.w s'.tab ≡ take s.w s.tab ++ alive_of (take k (drop i s.tab)))
        × (s'.dead ≡ s.dead ++ dead_of (take k (drop i s.tab)))
        × (length s'.tab ≡ length s.tab)
        × (s.w ≤ s'.w)
        × (s'.w ≤ i + k)
  unfolding sweep_loop
  sweep_loop_lem zero i s h b = (rw append-nil, rw append-nil, refl, omega arith, omega arith)
  sweep_loop_lem (suc k) i s h b =
      let (e, at) = get_elem?-some s.tab i (omega arith) in
      let round = sweep_round_lem i s e h at in
      let rest =
        sweep_loop_lem k (suc i) (sweep_round now grace i s) (round.5) (omega (arith, round)) in
      (
        rest.0
            ∙ ap₂ (λ x y. x ++ alive_of (take k y)) round.0 round.2
            ∙ join _ k i s.tab e (take s.w s.tab) at,
        rest.1
            ∙ ap₂ (λ x y. x ++ dead_of (take k y)) round.1 round.2
            ∙ join _ k i s.tab e s.dead at,
        rest.2 ∙ round.3,
        omega (arith, rest, round),
        omega (arith, rest),
      )

free_cell_table :
    (k : RKind) (c : Option Cell) (p : ℕ) (r : Reg)
    → ((free_cell k c p r).tab ≡ r.tab)
      × ((free_cell k c p r).n ≡ r.n)
      × ((free_cell k c p r).keep_from ≡ r.keep_from)
      × ((free_cell k c p r).freed ≡ r.freed)
unfolding free_cell
free_cell_table r_jobj (some (obj o)) p r = (refl, refl, refl, refl)
free_cell_table r_jbytes (some (bytes b)) p r = (refl, refl, refl, refl)
free_cell_table r_jarr (some (arr a)) p r = (refl, refl, refl, refl)
free_cell_table _ _ p r = (refl, refl, refl, refl)

pub free_obj_table :
    (e : REnt) (r : Reg)
    → ((reg_free_obj e r).tab ≡ r.tab)
      × ((reg_free_obj e r).n ≡ r.n)
      × ((reg_free_obj e r).keep_from ≡ r.keep_from)
      × ((reg_free_obj e r).freed ≡ r.freed)
unfolding reg_free_obj
free_obj_table e r = free_cell_table e.k (r.mem.cell e.p) e.p r

-- Freeing objects does not touch the table.
free_dead_table :
    (es : List REnt) (r : Reg)
    → ((free_dead es r).tab ≡ r.tab)
      × ((free_dead es r).n ≡ r.n)
      × ((free_dead es r).keep_from ≡ r.keep_from)
      × ((free_dead es r).freed ≡ r.freed)
unfolding free_dead
free_dead_table [] r = (refl, refl, refl, refl)
free_dead_table (e ∷ es) r =
    ground (arith, free_dead_table es (reg_free_obj e r), free_obj_table e r)

-- What the sweep at `now` keeps of a list of entries of which the first `k` are never swept.
abbrev pub survivors : ℕ → Reg → List REnt
survivors now r = take r.keep_from (view r) ++ alive_of now r.grace_ms (drop r.keep_from (view r))

abbrev pub condemned : ℕ → Reg → List REnt
condemned now r = dead_of now r.grace_ms (drop r.keep_from (view r))

segment :
    (k n : ℕ) (tab : List REnt)
    → k ≤ n
    → (take k (take n tab) ≡ take k tab) × (drop k (take n tab) ≡ take (n - k) (drop k tab))
segment k n tab h = (take-take k n tab h, drop-take k n tab)

pub sweep_scan_lem :
    (now : ℕ) (r : Reg)
    → IsTable r
    → let s = sweep_scan now r in
      (take s.w s.tab ≡ survivors now r)
      × (s.dead ≡ condemned now r)
      × (length s.tab ≡ cap r)
      × (r.keep_from ≤ s.w)
      × (s.w ≤ r.n)
unfolding sweep_scan
sweep_scan_lem now r v =
    let (front, back) = segment r.keep_from r.n r.tab v.kept in
    let scan =
      sweep_loop_lem now r.grace_ms (r.n - r.keep_from) r.keep_from
        (record { tab = r.tab; w = r.keep_from; dead = [] }) (omega arith) (omega arith) in
    (
      scan.0 ∙ ap₂ (λ x y. x ++ alive_of now r.grace_ms y) (sym front) (sym back),
      scan.1 ∙ ap (dead_of now r.grace_ms) (sym back),
      scan.2,
      scan.3,
      omega (arith, scan),
    )

pub view-reg_sweep :
    (now : ℕ) (r : Reg)
    → IsTable r
    → r.off ≡ false
    → r.mem.grants r.mem.next ≡ true
    → (view (reg_sweep now r) ≡ survivors now r)
      × ((reg_sweep now r).freed ≡ r.freed + length (condemned now r))
      × IsTable (reg_sweep now r)
unfolding reg_sweep
view-reg_sweep now r v on ok = ground (
  arith,
  sweep_scan_lem now r v,
  free_dead_table (sweep_scan now r).dead (record r {
    tab = (sweep_scan now r).tab;
    n = (sweep_scan now r).w;
    mem = record (r.mem) { next = suc r.mem.next };
  }),
)

-- `reg_add` leaves the heap's cells alone, and adds its entry or, when `realloc` fails, nothing.
pub reg_add_cases :
    (p : ℕ) (k : RKind) (now : ℕ) (r : Reg)
    → p ≢ 0
    → IsTable r
    → let r' = reg_add p k now r in
      IsTable r'
      × (r'.mem.cell ≡ r.mem.cell)
      × (r.mem.next ≤ r'.mem.next)
      × ((view r' ≡ view r ++ record { p = p; k = k; t = now; pin = 0 } ∷ []) ⊎ (view r' ≡ view r))
unfolding reg_add grow
reg_add_cases p k now r nz v = elim (Bool-cases (r.n == cap r)) [
  | inl full ↦ elim (Bool-cases (r.mem.grants r.mem.next)) [
    | inl ok ↦
        let (added, table) = view-reg_add p k now r nz v (inr ok) in
        (table, ground arith, ground arith, inl added)
    | inr oom ↦ (ground arith, ground arith, ground arith, inr (ground arith))
  ]
  | inr room ↦
      let (added, table) = view-reg_add p k now r nz v (inl (ground arith)) in
      (table, ground arith, ground arith, inl added)
]
