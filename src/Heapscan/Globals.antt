-- ===== src/Heapscan/Globals.antt =====
-- The scan of the global variables in `ownership_scan` of scripts/mtrace2_heapscan.c: the segments
-- of the engine library that hold them, and the words there that point into a block.
pub mod Found
pub mod Ranges
use wetype_ime_linux.Base.{
  ℕ, zero, suc, ◌+◌, ◌-◌, ◌*◌, ◌/◌, ◌%◌, ◌^◌, List, [], ◌∷◌, ◌++◌, Bool, not, ◌&&◌, ◌||◌, ◌==◌, ltb,
  leb, if◌then◌else◌, length,
}
use wetype_ime_linux.Heapscan.{RegEnt, Live, Line, reg_slots, collect, points_into, scan_blocks}

-- A line `[own-g]`: the segment, the offset in it, and the block pointed into.
pub record Global : Type 0 where
  pub seg : ℕ
  pub off : ℕ
  pub target : RegEnt

-- How many lines a segment has at most.
abbrev pub max_globals : ℕ
max_globals = 40

-- `wr_rng[g]`: where a segment begins and ends.
pub record Range : Type 0 where
  pub lo : ℕ
  pub hi : ℕ

-- `gm`, and how many words are read from it on before `gend`; an address that would wrap around is
-- not one of a segment.
unfoldable pub first_word : Range → ℕ
first_word r = r.lo / 8 * 8

unfoldable pub words_in : Range → ℕ
words_in r = (r.hi - first_word r + 7) / 8

module _ (word : ℕ → ℕ) (arr : List RegEnt) where
  -- The loop over the addresses: `k` words are left, the next of them is word `w` from `gm`, and there
  -- is room for `room` lines.
  unfoldable pub words_at : ℕ → ℕ → RegEnt → ℕ → ℕ → ℕ → List Global
  words_at g gm t zero w room = []
  words_at g gm t (suc k) w zero = []
  words_at g gm t (suc k) w (suc room) =
      let rest = words_at g gm t k (suc w) (suc room) in
      let more = words_at g gm t k (suc w) room in
      if points_into arr t (word (gm + w * 8))
      then record { seg = g; off = w * 8; target = t } ∷ more
      else rest

  -- The loop over the blocks, of which those of the size asked for are targets.
  unfoldable pub targets_at : ℕ → ℕ → ℕ → ℕ → List RegEnt → ℕ → List Global
  targets_at size g gm k [] room = []
  targets_at size g gm k (t ∷ ts) room =
      let ls = words_at g gm t k 0 room in
      let rest = targets_at size g gm k ts room in
      let more = targets_at size g gm k ts (room - length ls) in
      if not (ltb 0 room) then [] else if not (t.size == size) then rest else ls ++ more

  -- The lines of a segment.
  unfoldable pub segment_lines : ℕ → ℕ → Range → List Global
  segment_lines size g r = targets_at size g (first_word r) (words_in r) arr max_globals

  -- The loop over the segments from `g` on.
  unfoldable pub scan_globals : ℕ → ℕ → List Range → List Global
  scan_globals size g [] = []
  scan_globals size g (r ∷ rs) = segment_lines size g r ++ scan_globals size (suc g) rs

-- Both parts of `ownership_scan`.
unfoldable pub whole_scan :
    (List RegEnt → List RegEnt) → (ℕ → ℕ) → List Range → ℕ → Live → List Line × List Global
whole_scan qsort word ranges size tab =
    let blocks = collect reg_slots 0 (reg_slots / 2) tab in
    (scan_blocks qsort word size blocks, scan_globals word (qsort blocks) size 0 ranges)

-- `Elf64_Phdr`, with the flags that are asked for.
pub record Segment : Type 0 where
  pub p_type : ℕ
  pub executable : Bool
  pub writable : Bool
  pub p_vaddr : ℕ
  pub p_memsz : ℕ

abbrev pub pt_load : ℕ
pt_load = 1

-- `lo`, `hi`, and `wr_rng` with its `wr_n` entries.
pub record Spans : Type 0 where
  pub lo : ℕ
  pub hi : ℕ
  pub wr_rng : List Range

-- `NWR`.
abbrev pub max_ranges : ℕ
max_ranges = 8

unfoldable pub start_of : ℕ → Segment → ℕ
start_of addr ph = (addr + ph.p_vaddr) % 2 ^ 64

unfoldable pub end_of : ℕ → Segment → ℕ
end_of addr ph = (start_of addr ph + ph.p_memsz) % 2 ^ 64

-- What a segment from `b` to `e` does to the span of the code.
unfoldable pub widen : ℕ → ℕ → Spans → Spans
widen b e s = record s {
  lo = if (s.lo == 0) || ltb b s.lo then b else s.lo;
  hi = if ltb s.hi e then e else s.hi;
}

-- A round of the loop in `phdr_cb`, for a library loaded at `addr`.
unfoldable pub take_segment : ℕ → Segment → Spans → Spans
take_segment addr ph s =
    let b = start_of addr ph in
    let e = end_of addr ph in
    if not (ph.p_type == pt_load)
    then s
    else if ph.executable
    then widen b e s
    else if ph.writable && ltb (length s.wr_rng) max_ranges
    then record s { wr_rng = s.wr_rng ++ record { lo = b; hi = e } ∷ [] }
    else s

unfoldable pub take_segments : ℕ → List Segment → Spans → Spans
take_segments addr [] s = s
take_segments addr (ph ∷ phs) s = take_segments addr phs (take_segment addr ph s)

-- A loaded object, and whether its name is that of the engine library.
pub record Loaded : Type 0 where
  pub is_engine : Bool
  pub addr : ℕ
  pub phdrs : List Segment

-- `phdr_cb` over the objects loaded: `lo` and `hi` are those found last.
unfoldable pub phdr_cb : List Loaded → Spans → Spans
phdr_cb [] r = r
phdr_cb (o ∷ os) r =
    let s = take_segments o.addr o.phdrs (record r { lo = 0; hi = 0 }) in
    let kept = if s.lo == 0 then record s { lo = r.lo; hi = r.hi } else s in
    let next = phdr_cb os kept in let other = phdr_cb os r in if o.is_engine then next else other

-- `scan_wx_range`, which adds to `wr_rng`.
unfoldable pub scan_wx_range : List Loaded → List Range → Spans
scan_wx_range os wr = phdr_cb os (record { lo = 0; hi = 0; wr_rng = wr })
