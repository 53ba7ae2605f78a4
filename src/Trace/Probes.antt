-- ===== src/Trace/Probes.antt =====
-- The table of call sites.
use wetype_ime_linux.Base.{
  ℕ, zero, suc, ◌+◌, ◌%◌, ◌≡◌, ◌≢◌, refl, subst, if-both, Option, some, Bool, ◌&&◌, ◌==◌, if_true,
  if_false, Bool-cases, inl, inr, ==_iff, ==_refl, ==_of_ne,
}
use wetype_ime_linux.Daemon.Kept.{none-some, some_inj}
use wetype_ime_linux.Trace.{Sites, sites_count, pc_hash, set_site, pc_probe, pc_find}

-- The slot found is the site of `pc`, with the counts that the slot had, and the others are as they
-- were.
pub record IsFound (pc i : ℕ) (tab tab' : Sites) : Type 0 where
  pub site : (tab' i).pc ≡ pc
  pub bytes : (tab' i).bytes ≡ (tab i).bytes
  pub cnt : (tab' i).cnt ≡ (tab i).cnt
  pub rest : (j : ℕ) → j ≢ i → tab' j ≡ tab j

abbrev Finds : ℕ → Sites → Option ℕ × Sites → Type 0
Finds pc tab r = (i : ℕ) → r.0 ≡ some i → IsFound pc i tab r.1

same_site : (pc i : ℕ) (tab : Sites) → (tab i).pc ≡ pc → IsFound pc i tab tab
same_site pc i tab h = record { site = h; bytes = refl; cnt = refl; rest = λ j n. refl }

new_site : (pc i : ℕ) (tab : Sites) → IsFound pc i tab (set_site i (record (tab i) { pc = pc }) tab)
unfolding set_site
new_site pc i tab = record {
  site = rw (==_refl i) refl;
  bytes = rw (==_refl i) refl;
  cnt = rw (==_refl i) refl;
  rest = λ j n. rw (==_of_ne j i n) refl;
}

pc_probe-Finds :
    (left h pc : ℕ) (create : Bool) (tab : Sites) → Finds pc tab (pc_probe left h pc create tab)
unfolding pc_probe
pc_probe-Finds zero h pc create tab = λ i e. absurd (none-some e)
pc_probe-Finds (suc left) h pc create tab =
    let i = h % sites_count in
    elim (Bool-cases ((tab i).pc == pc)) [
      | inl e ↦ if_true (Finds pc tab) ((tab i).pc == pc) _ _ e (λ j q.
          subst (λ k. IsFound pc k tab tab) (some_inj q)
            (same_site pc i tab ((==_iff (tab i).pc pc).0 e)))
      | inr e ↦ if_false (Finds pc tab) ((tab i).pc == pc) _ _ e (
          if-both (Finds pc tab) (((tab i).pc == 0) && create) _ _
            (λ j q.
              subst (λ k. IsFound pc k tab (set_site i (record (tab i) { pc = pc }) tab))
                (some_inj q) (new_site pc i tab))
            (pc_probe-Finds left (h + 1) pc create tab))
    ]

-- A search in the table of call sites that finds a slot finds that of the site, old or new: its counts
-- are those the slot had, and no other slot changes.
pub pc_find-IsFound :
    (pc : ℕ) (create : Bool) (tab : Sites) (i : ℕ)
    → let (slot, tab') = pc_find pc create tab in slot ≡ some i → IsFound pc i tab tab'
unfolding pc_find
pc_find-IsFound pc create tab i e = pc_probe-Finds 16 (pc_hash pc) pc create tab i e
