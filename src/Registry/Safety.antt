-- ===== src/Registry/Safety.antt =====
-- Memory safety of `reg_sweep` and `reg_release` of harness/jinterop.c over the whole registry.
use wetype_ime_linux.Base.{
  ℕ, suc, ◌≡◌, ◌≤◌, arith, refl, sym, ap, ap₂, ◌∙◌, List, ◌∷◌, ◌++◌, Bool, true, false, ◌⊎◌, inl,
  inr, subst, take, drop, length, take-append-drop, arith,
}
use mathlib.Core.List.{Mem, mem-cons_self, Perm}
use mathlib.Core.List.Perm
use wetype_ime_linux.Base.Perms.{partition_perm, exchange_perm}
use wetype_ime_linux.Memory.{Mem as Memory}
use wetype_ime_linux.Registry.{
  Reg, cap, REnt, is_dead, sweep_scan, free_dead, reg_sweep, reg_free_obj, reg_release,
}
use wetype_ime_linux.Registry.View.{
  view, IsTable, survivors, condemned, view-reg_sweep, sweep_scan_lem, alive_of, free_obj_table,
}
use wetype_ime_linux.Registry.Ownership.{
  IsOwned, Freed, owned, owned_all, IsOwned-perm, free_dead-IsOwned, free_obj-IsOwned,
}
use wetype_ime_linux.Registry.Lookup.{Refused, Released, skipped, released, reg_release_lem}

view-perm : (now : ℕ) (r : Reg) → Perm (view r) (condemned now r ++ survivors now r)
view-perm now r =
    let front = take r.keep_from (view r) in
    let back = drop r.keep_from (view r) in
    subst (λ l. Perm l (condemned now r ++ survivors now r)) (take-append-drop r.keep_from (view r))
      (Perm.trans (Perm.append (Perm.refl front) (partition_perm (is_dead now r.grace_ms) back))
        (exchange_perm front (condemned now r) (alive_of now r.grace_ms back)))

-- The registry once its table is packed, before the dead are freed.
packed : ℕ → Reg → Reg
packed now r = record r {
  tab = (sweep_scan now r).tab;
  n = (sweep_scan now r).w;
  mem = record (r.mem) { next = suc r.mem.next };
}

sweep_mem :
    (now : ℕ) (r : Reg)
    → r.off ≡ false
    → r.mem.grants r.mem.next ≡ true
    → (reg_sweep now r).mem ≡ (free_dead (sweep_scan now r).dead (packed now r)).mem
unfolding reg_sweep packed
sweep_mem now r on ok = ground arith

Freed-packed :
    (now : ℕ) (r : Reg) (gone kept : List REnt)
    → IsOwned r.mem.cell (gone ++ kept)
    → Freed (owned_all r.mem.cell gone) r.mem (free_dead gone (packed now r)).mem
      × IsOwned (free_dead gone (packed now r)).mem.cell kept
unfolding packed
Freed-packed now r gone kept v =
    let (f, whole) = free_dead-IsOwned gone kept (packed now r) v in
    (record { gone = f.gone; rest = f.rest; sound = f.sound }, whole)

-- Every registered object, and all that it owns, is allocated, once.
abbrev pub IsSafe : Reg → Type 0
IsSafe r = IsOwned r.mem.cell (view r)

-- A sweep frees each address owned by a condemned object exactly once, frees nothing else, and
-- leaves every surviving object, and all that it owns, allocated.
pub reg_sweep-IsSafe :
    (now : ℕ) (r : Reg)
    → IsTable r
    → r.off ≡ false
    → r.mem.grants r.mem.next ≡ true
    → IsSafe r
    → Freed (owned_all r.mem.cell (condemned now r)) r.mem (reg_sweep now r).mem
      × IsSafe (reg_sweep now r)
reg_sweep-IsSafe now r v on ok safe =
    let gone = condemned now r in
    let kept = survivors now r in
    let mem_eq : (reg_sweep now r).mem ≡ (free_dead gone (packed now r)).mem =
      sweep_mem now r on ok
      ∙ ap (λ es. (free_dead es (packed now r)).mem) (sweep_scan_lem now r v).1 in
    let owned_now = IsOwned-perm r.mem.cell (view r) (gone ++ kept) (view-perm now r) safe in
    let (freed, whole) = Freed-packed now r gone kept owned_now in
    (
      subst (Freed (owned_all r.mem.cell gone) r.mem) (sym mem_eq) freed,
      subst (λ (m : Memory). IsOwned m.cell (view (reg_sweep now r))) (sym mem_eq)
          (subst (IsOwned (free_dead gone (packed now r)).mem.cell)
            (sym (view-reg_sweep now r v on ok).0) whole),
    )

-- A release that is refused for a reason, or one that freed just what the entry of `p` owned.
abbrev pub ReleaseOutcome : ℕ → Reg → Bool × Reg → Type 0
ReleaseOutcome p r o =
    (Refused p r × (o.0 ≡ false) × (o.1 ≡ r))
    ⊎ ((o.0 ≡ true)
        × ((e : REnt) × (e.p ≡ p)
            × (e.pin ≡ 0)
            × Mem e (view r)
            × Freed (owned r.mem.cell e) r.mem o.1.mem))

view-reg_free_obj : (e : REnt) (r : Reg) → view (reg_free_obj e r) ≡ view r
view-reg_free_obj e r = let t = free_obj_table e r in ap₂ take t.1 t.0

-- A release frees just what the object at the address owns, and leaves the other objects safe, if an
-- entry without pins has the address; it changes nothing only if the address is NULL, no entry has
-- it, or an entry that is pinned has it.
pub reg_release-IsSafe :
    (p : ℕ) (r : Reg)
    → r.n ≤ cap r
    → IsSafe r
    → IsSafe (reg_release p r).1 × ReleaseOutcome p r (reg_release p r)
reg_release-IsSafe p r v safe = go (reg_release p r) (reg_release_lem p r v)
  where
    go : (o : Bool × Reg) → Released p r o → IsSafe o.1 × ReleaseOutcome p r o
    go o (skipped why e) =
        subst (λ x. IsSafe x.1 × ReleaseOutcome p r x) (sym e) (safe, inl (why, refl, refl))
    go o (released e r' ep pin perm _ _ mem_eq _ o_eq) =
        let whole : IsOwned r'.mem.cell (e ∷ view r') =
          subst (λ (m : Memory). IsOwned m.cell (e ∷ view r')) (sym mem_eq)
            (IsOwned-perm r.mem.cell (view r) (e ∷ view r') perm safe) in
        let (freed, rest, _) = free_obj-IsOwned e (view r') r' whole in
        subst (λ x. IsSafe x.1 × ReleaseOutcome p r x) (sym o_eq)
          (
            subst (IsOwned (reg_free_obj e r').mem.cell) (sym (view-reg_free_obj e r')) rest,
            inr (
              refl,
              (
                e,
                ep,
                pin,
                (Perm.mem_iff perm).1 mem-cons_self,
                subst (λ (m : Memory). Freed (owned m.cell e) m (reg_free_obj e r').mem) mem_eq
                    freed,
              ),
            ),
          )

-- A release never makes the table longer than its allocation.
pub fits-reg_release :
    (p : ℕ) (r : Reg) → r.n ≤ cap r → (reg_release p r).1.n ≤ cap (reg_release p r).1
fits-reg_release p r v = go (reg_release p r) (reg_release_lem p r v)
  where
    go : (o : Bool × Reg) → Released p r o → o.1.n ≤ cap o.1
    go o (skipped why e) = subst (λ x. x.1.n ≤ cap x.1) (sym e) v
    go o (released e r' _ _ _ n_eq cap_eq _ _ o_eq) =
        let t = free_obj_table e r' in
        subst (λ x. x.1.n ≤ cap x.1) (sym o_eq)
          (let c = ap (length) t.0 in omega (arith, t.1, c, n_eq, cap_eq, v))
