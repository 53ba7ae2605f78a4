-- ===== src/Heapscan/Live.antt =====
-- The registry of live blocks of scripts/mtrace2_heapscan.c: what `reg_add` and `reg_del` change.
use wetype_ime_linux.Base.{
  ℕ, zero, suc, ◌+◌, ◌%◌, ◌<◌, ◌≡◌, ◌≢◌, refl, sym, subst, ◌⊎◌, inl, inr, true, false, ◌||◌, ◌==◌,
  ==_iff, ==_refl, ==_of_ne, Bool-cases, arith,
}
use wetype_ime_linux.Heapscan.{
  Live, reg_slots, reg_probes, reg_hash, set_slot, add_probe, reg_add, del_probe, reg_del,
}

-- One slot, that was free or had the block, has it now, and the others are as they were.
pub record Added (p n pc : ℕ) (tab tab' : Live) : Type 0 where
  pub slot : ℕ
  pub was : ((tab slot).ptr ≡ 0) ⊎ ((tab slot).ptr ≡ p)
  pub is_now : tab' slot ≡ record { ptr = p; size = n; pc = pc }
  pub rest : (j : ℕ) → j ≢ slot → tab' j ≡ tab j

abbrev at : Live → ℕ → ℕ
at tab h = (tab (h % reg_slots)).ptr

-- Each of the next `left` slots has another block.
abbrev pub Full : ℕ → ℕ → ℕ → Live → Type 0
Full left h p tab = (k : ℕ) → k < left → (at tab (h + k) ≢ 0) × (at tab (h + k) ≢ p)

-- The next `left` slots do not have the block before the first free one.
abbrev pub Missing : ℕ → ℕ → ℕ → Live → Type 0
Missing left h p tab =
    (k : ℕ) → k < left → ((j : ℕ) → j < k → at tab (h + j) ≢ 0) → at tab (h + k) ≢ p

add_probe_lem :
    (left h p n pc : ℕ) (tab : Live)
    → let tab' = add_probe left h (record { ptr = p; size = n; pc = pc }) tab in
      Added p n pc tab tab' ⊎ (tab' ≡ tab) × Full left h p tab
unfolding add_probe set_slot
add_probe_lem zero h p n pc tab = inr (refl, λ k l. absurd (omega (arith, l)))
add_probe_lem (suc left) h p n pc tab =
    let i = h % reg_slots in
    elim (Bool-cases (((tab i).ptr == 0) || ((tab i).ptr == p))) [
      | inr e ↦ rw e (elim (add_probe_lem left (suc h) p n pc tab) [
        | inl a ↦ inl a
        | inr (same, full) ↦ inr (same, more (taken e) full)
      ])
      | inl e ↦ rw e (
          inl (record {
            slot = i;
            was = old i e;
            is_now = rw (==_refl i) refl;
            rest = λ j z. rw (==_of_ne j i z) refl;
          }))
    ]
  where
    old :
        (i : ℕ)
        → ((tab i).ptr == 0) || ((tab i).ptr == p) ≡ true
        → ((tab i).ptr ≡ 0) ⊎ ((tab i).ptr ≡ p)
    old i e = elim (Bool-cases ((tab i).ptr == 0)) [
      | inl y ↦ inl ((==_iff (tab i).ptr 0).0 y)
      | inr y ↦ inr (ground (arith, e, y))
    ]

    taken : (at tab h == 0) || (at tab h == p) ≡ false → (at tab h ≢ 0) × (at tab h ≢ p)
    taken e = (λ z. ground (arith, e, z), λ z. ground (arith, e, z))

    more : (at tab h ≢ 0) × (at tab h ≢ p) → Full left (suc h) p tab → Full (suc left) h p tab
    more here full zero l =
        let q : h ≡ h + 0 = omega arith in subst (λ x. (at tab x ≢ 0) × (at tab x ≢ p)) q here
    more here full (suc k) l =
        let q : suc h + k ≡ h + suc k = omega arith in
        subst (λ x. (at tab x ≢ 0) × (at tab x ≢ p)) q (full k (omega (arith, l)))

-- One slot that had the block is free, and the others are as they were.
pub record Removed (p : ℕ) (tab tab' : Live) : Type 0 where
  pub slot : ℕ
  pub was : (tab slot).ptr ≡ p
  pub is_now : (tab' slot).ptr ≡ 0
  pub rest : (j : ℕ) → j ≢ slot → tab' j ≡ tab j

del_probe_lem :
    (left h p : ℕ) (tab : Live)
    → let tab' = del_probe left h p tab in Removed p tab tab' ⊎ (tab' ≡ tab) × Missing left h p tab
unfolding del_probe set_slot
del_probe_lem zero h p tab = inr (refl, λ k l f. absurd (omega (arith, l)))
del_probe_lem (suc left) h p tab =
    let i = h % reg_slots in
    elim (Bool-cases ((tab i).ptr == p)) [
      | inl e ↦ rw e (
          inl (record {
            slot = i;
            was = (==_iff (tab i).ptr p).0 e;
            is_now = rw (==_refl i) refl;
            rest = λ j z. rw (==_of_ne j i z) refl;
          }))
      | inr e ↦ elim (Bool-cases ((tab i).ptr == 0)) [
        | inl y ↦ rw (e, y) (inr (refl, stopped (other e) ((==_iff (tab i).ptr 0).0 y)))
        | inr y ↦
            rw (e, y)
              (elim (del_probe_lem left (suc h) p tab) [
                | inl a ↦ inl a
                | inr (same, m) ↦ inr (same, more (other e) m)
              ])
      ]
    ]
  where
    other : (at tab h == p) ≡ false → at tab h ≢ p
    other e z = ground (arith, e, z)

    first : at tab h ≢ p → at tab (h + 0) ≢ p
    first z = let q : h ≡ h + 0 = omega arith in subst (λ x. at tab x ≢ p) q z

    stopped : at tab h ≢ p → at tab h ≡ 0 → Missing (suc left) h p tab
    stopped z free zero l f = first z
    stopped z free (suc k) l f =
        let q : h ≡ h + 0 = omega arith in
        absurd (f 0 (omega arith) (subst (λ x. at tab x ≡ 0) q free))

    more : at tab h ≢ p → Missing left (suc h) p tab → Missing (suc left) h p tab
    more z m zero l f = first z
    more z m (suc k) l f =
        let q : suc h + k ≡ h + suc k = omega arith in
        subst (λ x. at tab x ≢ p) q
          (m k (omega (arith, l)) (λ j g.
            let r : h + suc j ≡ suc h + j = omega arith in
            subst (λ x. at tab x ≢ 0) r (f (suc j) (omega (arith, g)))))

-- Registering a block writes one slot, that was free or had this block, and touches no other; it
-- changes nothing only if 64 slots in a row have other blocks. Removing one frees one slot that
-- had it and touches no other; it changes nothing only if the block does not stand in the 64 slots
-- before the first free one.
pub registry_lem :
    (p n pc : ℕ) (tab : Live)
    → p ≢ 0
    → (Added p n pc tab (reg_add p n pc tab)
        ⊎ (reg_add p n pc tab ≡ tab) × Full reg_probes (reg_hash p) p tab)
      × (Removed p tab (reg_del p tab)
          ⊎ (reg_del p tab ≡ tab) × Missing reg_probes (reg_hash p) p tab)
unfolding reg_add reg_del
registry_lem p n pc tab real =
    rw (==_of_ne p 0 real) (
      add_probe_lem reg_probes (reg_hash p) p n pc tab,
      del_probe_lem reg_probes (reg_hash p) p tab,
    )

-- A block that stands behind a slot that was freed stays registered when it is freed itself: the
-- search stops at the free slot.
pub reg_del_stale :
    (p : ℕ) (tab : Live) → p ≢ 0 → (tab (reg_hash p % reg_slots)).ptr ≡ 0 → reg_del p tab ≡ tab
unfolding reg_del del_probe
reg_del_stale p tab real free =
    let miss : (0 == p) ≡ false = ==_of_ne 0 p (λ z. real (sym z)) in
    rw (==_of_ne p 0 real, free, miss) refl
