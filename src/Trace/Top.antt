-- ===== src/Trace/Top.antt =====
-- The sites that `dump` of harness/malloc_trace.c shows: the eight with the most live bytes.
pub mod Rank
pub mod Shown
use wetype_ime_linux.Base.{
  ℕ, zero, suc, ◌/◌, List, [], ◌∷◌, Bool, ◌==◌, ltb, if◌then◌else◌, take, map,
}
use wetype_ime_linux.Trace.{Sites, Trace, sites_count}

module _ (bytes : ℕ → ℕ) where
  -- The loop over `idx` at site `i`, with `room` slots left; the slots without a site, which hold
  -- ULONG_MAX and count as 0, are the last ones.
  unfoldable pub rank : ℕ → ℕ → List ℕ → List ℕ
  rank i zero xs = []
  rank i (suc room) [] = if ltb 0 (bytes i) then i ∷ [] else []
  rank i (suc room) (x ∷ xs) =
      let rest = rank i room xs in
      if ltb (bytes x) (bytes i) then i ∷ take room (x ∷ xs) else x ∷ rest

-- How many sites are shown.
abbrev pub shown_sites : ℕ
shown_sites = 8

-- The loop over the sites from `i` on, with `k` left.
unfoldable pub top_from : Sites → ℕ → ℕ → List ℕ → List ℕ
top_from tab zero i idx = idx
top_from tab (suc k) i idx =
    top_from tab k (suc i)
      (if (tab i).pc == 0 then idx else rank (λ j. (tab j).bytes) i shown_sites idx)

-- `idx` after the loops.
unfoldable pub top_sites : Sites → List ℕ
top_sites tab = top_from tab sites_count 0 []

-- A line of a site: its address, the live bytes in KiB, and the blocks.
pub record Row : Type 0 where
  pub pc : ℕ
  pub kib : ℕ
  pub cnt : ℕ

unfoldable pub row_of : Sites → ℕ → Row
row_of tab i = record { pc = (tab i).pc; kib = (tab i).bytes / 1024; cnt = (tab i).cnt }

-- The lines that `dump` writes of the sites.
unfoldable pub dump_sites : Trace → List Row
dump_sites t = map (row_of t.pc_tab) (top_sites t.pc_tab)
