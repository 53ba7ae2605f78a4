-- ===== src/Trace/Top/Shown.antt =====
-- The sites that `dump` of harness/malloc_trace.c shows are the eight with the most live bytes.
use wetype_ime_linux.Base.{
  ℕ, zero, suc, ◌+◌, ◌≤◌, ◌<◌, ◌≡◌, ◌≢◌, sym, ap, subst, ◌∙◌, ◌⊎◌, inl, inr, List, [], ◌==◌, ==_iff,
  if◌then◌else◌, if_true, if_false, Bool-cases, length, arith,
}
use wetype_ime_linux.Trace.{Sites, sites_count}
use wetype_ime_linux.Trace.Top.{rank, shown_sites, top_from, top_sites}
use wetype_ime_linux.Trace.Top.Rank.{
  In, Falls, Beaten, Beaten-rank, Falls-rank, Apart, Apart-rank, rank_self, rank_old, length-rank,
  rank-In,
}

-- Of the first `n` sites of the table those shown are at most eight, each once, from the most bytes down, each
-- in use and with some bytes; and any other in use is beaten by all of them: it has no more bytes
-- than any, and none at all if fewer than eight are shown.
pub record IsTop (tab : Sites) (n : ℕ) (idx : List ℕ) : Type 0 where
  pub few : length idx ≤ shown_sites
  pub falls : Falls (λ j. (tab j).bytes) idx
  pub once : Apart idx
  pub used : (j : ℕ) → In j idx → (j < n) × ((tab j).pc ≢ 0) × (0 < (tab j).bytes)
  pub most :
      (j : ℕ)
      → j < n
      → (tab j).pc ≢ 0
      → In j idx ⊎ Beaten (λ k. (tab k).bytes) (tab j).bytes shown_sites idx

module _ (tab : Sites) where
  skip-IsTop : (n : ℕ) (idx : List ℕ) → (tab n).pc ≡ 0 → IsTop tab n idx → IsTop tab (suc n) idx
  skip-IsTop n idx z t = record {
    few = t.few;
    falls = t.falls;
    once = t.once;
    used = λ j i. let (l, p, b) = t.used j i in (omega (arith, l), p, b);
    most = λ j l p. elim (Bool-cases (j == n)) [
      | inl e ↦ absurd (p (ap (λ k. (tab k).pc) ((==_iff j n).0 e) ∙ z))
      | inr e ↦ t.most j (ground (arith, l, e)) p
    ];
  }

  rank-IsTop :
      (n : ℕ) (idx : List ℕ)
      → (tab n).pc ≢ 0
      → IsTop tab n idx
      → IsTop tab (suc n) (rank (λ j. (tab j).bytes) n shown_sites idx)
  rank-IsTop n idx z t =
      let bytes = λ (j : ℕ). (tab j).bytes in
      let old = λ (j : ℕ) (h : In j idx). rank_old bytes n j shown_sites idx t.falls h in
      record {
        few = length-rank bytes n shown_sites idx;
        falls = Falls-rank bytes n shown_sites idx t.falls;
        once = Apart-rank bytes n shown_sites idx (λ q. omega (arith, (t.used n q).0)) t.once;
        used = λ j i. elim (rank-In bytes n j shown_sites idx i) [
          | inl (e, b) ↦
              subst (λ k. (k < suc n) × ((tab k).pc ≢ 0) × (0 < (tab k).bytes)) (sym e)
                (omega arith, z, b)
          | inr h ↦ (let (l, p, b) = t.used j h in (omega (arith, l), p, b))
        ];
        most = λ j l p. elim (Bool-cases (j == n)) [
          | inl e ↦
              subst
                (λ k.
                  In k (rank bytes n shown_sites idx)
                  ⊎ Beaten bytes (bytes k) shown_sites (rank bytes n shown_sites idx))
                (sym ((==_iff j n).0 e)) (rank_self bytes n shown_sites idx)
          | inr e ↦ elim (t.most j (ground (arith, l, e)) p) [
            | inl h ↦ old j h
            | inr h ↦ inr (Beaten-rank bytes (bytes j) n shown_sites idx h)
          ]
        ];
      }

  top_from-IsTop :
      (k i : ℕ) (idx : List ℕ) → IsTop tab i idx → IsTop tab (k + i) (top_from tab k i idx)
  unfolding top_from
  top_from-IsTop zero i idx t = let e : i ≡ 0 + i = omega arith in subst (λ n. IsTop tab n idx) e t
  top_from-IsTop (suc k) i idx t =
      let e : k + suc i ≡ suc k + i = omega arith in
      subst (λ n. IsTop tab n (top_from tab (suc k) i idx)) e
        (top_from-IsTop k (suc i)
          (if (tab i).pc == 0 then idx else rank (λ j. (tab j).bytes) i shown_sites idx)
          (elim (Bool-cases ((tab i).pc == 0)) [
            | inl z ↦
                if_true (IsTop tab (suc i)) ((tab i).pc == 0) _ _ z
                  (skip-IsTop i idx ((==_iff (tab i).pc 0).0 z) t)
            | inr z ↦
                if_false (IsTop tab (suc i)) ((tab i).pc == 0) _ _ z
                  (rank-IsTop i idx (λ q. ground (arith, z, q)) t)
          ]))

  -- The sites that `dump` shows are at most eight, each once, from the most live bytes down, each in use and with
  -- some bytes, and any other site in use has no more bytes than each of them, and none at all if
  -- fewer than eight are shown.
  pub top_sites-IsTop : IsTop tab sites_count (top_sites tab)
  unfolding top_sites
  top_sites-IsTop = top_from-IsTop sites_count 0 [] (record {
    few = omega arith;
    falls = tt;
    once = tt;
    used = λ j i. absurd i;
    most = λ j l p. absurd (omega (arith, l));
  })
