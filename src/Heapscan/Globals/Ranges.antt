-- ===== src/Heapscan/Globals/Ranges.antt =====
-- The segments that `phdr_cb` of scripts/mtrace2_heapscan.c finds.
use wetype_ime_linux.Base.{
  ℕ, zero, suc, ◌+◌, ◌-◌, ◌≤◌, ◌<◌, ◌≡◌, refl, sym, ap, ◌∙◌, ◌⊎◌, inl, inr, List, [], ◌∷◌, ◌++◌,
  Bool, true, false, not, ◌&&◌, ◌==◌, ==_iff, if◌then◌else◌, Bool-cases, All, length, length-append,
  take, arith,
}
use wetype_ime_linux.Heapscan.Globals.Found.{true-false}
use wetype_ime_linux.Heapscan.Globals.{
  Range, Segment, Spans, pt_load, max_ranges, start_of, end_of, Loaded, widen, take_segment,
  take_segments, phdr_cb, scan_wx_range,
}

-- A segment of code that is loaded.
abbrev pub is_code : Segment → Bool
is_code ph = (ph.p_type == pt_load) && ph.executable

module _ (addr : ℕ) where
  -- The span from `lo` to `hi` holds a segment.
  abbrev pub Spanned : Spans → Segment → Type 0
  Spanned s ph =
      is_code ph ≡ true → (0 < s.lo) × (s.lo ≤ start_of addr ph) × (end_of addr ph ≤ s.hi)

  -- No code begins at 0.
  abbrev pub Placed : Segment → Type 0
  Placed ph = is_code ph ≡ true → 0 < start_of addr ph

  take-code :
      (ph : Segment) (s : Spans)
      → is_code ph ≡ true
      → take_segment addr ph s ≡ widen (start_of addr ph) (end_of addr ph) s
  unfolding take_segment
  take-code ph s c = elim (Bool-cases (ph.p_type == pt_load)) [
    | inl e ↦ elim (Bool-cases (ph.executable)) [
      | inl x ↦ rw (e, x) refl
      | inr x ↦ absurd (true-false (sym c ∙ rw (e, x) refl))
    ]
    | inr e ↦ absurd (true-false (sym c ∙ rw e refl))
  ]

  -- Any other segment leaves the span.
  take-other :
      (ph : Segment) (s : Spans)
      → is_code ph ≡ false
      → ((take_segment addr ph s).lo ≡ s.lo) × ((take_segment addr ph s).hi ≡ s.hi)
  unfolding take_segment
  take-other ph s c = ground (arith, c)

widen_spans : (b e : ℕ) (s : Spans) → ((widen b e s).lo ≤ b) × (e ≤ (widen b e s).hi)
unfolding widen
widen_spans b e s = ground arith

widen_widens :
    (b e : ℕ) (s : Spans)
    → 0 < b
    → (0 < (widen b e s).lo) × (0 < s.lo → (widen b e s).lo ≤ s.lo) × (s.hi ≤ (widen b e s).hi)
unfolding widen
widen_widens b e s p = ground (arith, p)

module _ (addr : ℕ) where
  -- What a run of segments does to the span.
  take_segments_spans :
      (phs : List Segment) (s : Spans)
      → All (Placed addr) phs
      → (0 < s.lo → (0 < (take_segments addr phs s).lo) × ((take_segments addr phs s).lo ≤ s.lo))
        × (s.hi ≤ (take_segments addr phs s).hi)
        × All (Spanned addr (take_segments addr phs s)) phs
  unfolding take_segments
  take_segments_spans [] s h = (λ z. (z, omega arith), omega arith, tt)
  take_segments_spans (ph ∷ phs) s h =
      let mid = take_segment addr ph s in
      let (low, high, rest) = take_segments_spans phs mid h.1 in
      elim (Bool-cases (is_code ph)) [
        | inl c ↦
            let b = start_of addr ph in
            let e = end_of addr ph in
            let same = take-code addr ph s c in
            let same_lo = ap (λ (x : Spans). x.lo) same in
            let same_hi = ap (λ (x : Spans). x.hi) same in
            let (at_b, at_e) = widen_spans b e s in
            let (pos, down, up) = widen_widens b e s (h.0 c) in
            let (x, y) = low (omega (arith, pos, same_lo)) in
            (
              λ z. (x, omega (arith, y, same_lo, down z)),
              omega (arith, high, same_hi, up),
              (λ d. (x, omega (arith, y, same_lo, at_b), omega (arith, high, same_hi, at_e)), rest),
            )
        | inr c ↦
            let (same_lo, same_hi) = take-other addr ph s c in
            (
              λ z. let (x, y) = low (omega (arith, z, same_lo)) in (x, omega (arith, y, same_lo)),
              omega (arith, high, same_hi),
              (λ d. absurd (true-false (sym d ∙ c)), rest),
            )
      ]

-- A segment of variables that is loaded.
abbrev pub is_data : Segment → Bool
is_data ph = (ph.p_type == pt_load) && not ph.executable && ph.writable

-- The ranges of the segments of variables, in order.
abbrev pub data_ranges : ℕ → List Segment → List Range
data_ranges addr [] = []
data_ranges addr (ph ∷ phs) =
    if is_data ph
    then record { lo = start_of addr ph; hi = end_of addr ph } ∷ data_ranges addr phs
    else data_ranges addr phs

append_nil : (n : ℕ) (xs : List Range) → xs ++ take n [] ≡ xs
append_nil zero [] = refl
append_nil (suc n) [] = refl
append_nil n (x ∷ xs) = ap (◌∷◌ x) (append_nil n xs)

append_assoc : (xs ys zs : List Range) → (xs ++ ys) ++ zs ≡ xs ++ (ys ++ zs)
append_assoc [] ys zs = refl
append_assoc (x ∷ xs) ys zs = ap (◌∷◌ x) (append_assoc xs ys zs)

module _ (addr : ℕ) where
  take-data :
      (ph : Segment) (s : Spans)
      → is_data ph ≡ true
      → length s.wr_rng < max_ranges
      → (take_segment addr ph s).wr_rng
        ≡ s.wr_rng ++ record { lo = start_of addr ph; hi = end_of addr ph } ∷ []
  unfolding take_segment
  take-data ph s c l = ground (arith, c, l)

  take-kept :
      (ph : Segment) (s : Spans)
      → (is_data ph ≡ false) ⊎ (max_ranges ≤ length s.wr_rng)
      → (take_segment addr ph s).wr_rng ≡ s.wr_rng
  unfolding take_segment widen
  take-kept ph s (inl c) = ground (arith, c)
  take-kept ph s (inr l) = ground (arith, l)

  -- The ranges that are found are added to those before, as long as there is room.
  take_segments_ranges :
      (phs : List Segment) (s : Spans) (room : ℕ)
      → length s.wr_rng + room ≡ max_ranges
      → (take_segments addr phs s).wr_rng ≡ s.wr_rng ++ take room (data_ranges addr phs)
  unfolding take_segments
  take_segments_ranges [] s room h = sym (append_nil room s.wr_rng)
  take_segments_ranges (ph ∷ phs) s zero h =
      let same = take-kept ph s (inr (omega (arith, h))) in
      take_segments_ranges phs (take_segment addr ph s) zero
        (omega (arith, h, ap (λ (w : List Range). length w) same))
      ∙ ap (λ (w : List Range). w ++ []) same
  take_segments_ranges (ph ∷ phs) s (suc room) h = elim (Bool-cases (is_data ph)) [
    | inl c ↦
        let r : Range = record { lo = start_of addr ph; hi = end_of addr ph } in
        let same = take-data ph s c (omega (arith, h)) in
        let longer = ap (λ (w : List Range). length w) same ∙ length-append s.wr_rng (r ∷ []) in
        take_segments_ranges phs (take_segment addr ph s) room (omega (arith, h, longer))
        ∙ ap (λ (w : List Range). w ++ take room (data_ranges addr phs)) same
        ∙ append_assoc s.wr_rng (r ∷ []) (take room (data_ranges addr phs))
        ∙ rw c refl
    | inr c ↦
        let same = take-kept ph s (inl c) in
        take_segments_ranges phs (take_segment addr ph s) (suc room)
          (omega (arith, h, ap (λ (w : List Range). length w) same))
        ∙ ap (λ (w : List Range). w ++ take (suc room) (data_ranges addr phs)) same
        ∙ rw c refl
  ]

-- The objects that are not the engine library change nothing.
phdr_cb-others :
    (os rest : List Loaded) (r : Spans)
    → All (λ (o : Loaded). o.is_engine ≡ false) os
    → phdr_cb (os ++ rest) r ≡ phdr_cb rest r
unfolding phdr_cb
phdr_cb-others [] rest r h = refl
phdr_cb-others (o ∷ os) rest r h = rw h.0 (phdr_cb-others os rest r h.1)

phdr_cb-after :
    (os : List Loaded) (r : Spans) → All (λ (o : Loaded). o.is_engine ≡ false) os → phdr_cb os r ≡ r
unfolding phdr_cb
phdr_cb-after [] r h = refl
phdr_cb-after (o ∷ os) r h = rw h.0 (phdr_cb-after os r h.1)

-- No code is found if the span begins at 0.
no_code :
    (addr : ℕ) (s t : Spans) (phs : List Segment)
    → s.lo ≡ 0
    → All (Spanned addr s) phs
    → All (Spanned addr t) phs
no_code addr s t [] z h = tt
no_code addr s t (ph ∷ phs) z h =
    (λ c. absurd (omega (arith, z, (h.0 c).0)), no_code addr s t phs z h.1)

-- Where the engine library is loaded at `o.addr`, the span found holds each of its segments of code,
-- and its segments of variables are added to the ranges in order, up to eight ranges in all.
pub scan_wx_range_lem :
    (before after : List Loaded) (o : Loaded) (wr : List Range)
    → All (λ (x : Loaded). x.is_engine ≡ false) before
    → All (λ (x : Loaded). x.is_engine ≡ false) after
    → o.is_engine ≡ true
    → All (Placed o.addr) o.phdrs
    → length wr ≤ max_ranges
    → All (Spanned o.addr (scan_wx_range (before ++ o ∷ after) wr)) o.phdrs
      × ((scan_wx_range (before ++ o ∷ after) wr).wr_rng
          ≡ wr ++ take (max_ranges - length wr) (data_ranges o.addr o.phdrs))
unfolding scan_wx_range phdr_cb
scan_wx_range_lem before after o wr h1 h2 e p l =
    let r0 : Spans = record { lo = 0; hi = 0; wr_rng = wr } in
    let s = take_segments o.addr o.phdrs r0 in
    let spans = (take_segments_spans o.addr o.phdrs r0 p).2 in
    let ranges =
      take_segments_ranges o.addr o.phdrs r0 (max_ranges - length wr) (omega (arith, l)) in
    rw (phdr_cb-others before (o ∷ after) r0 h1) (elim (Bool-cases (s.lo == 0)) [
      | inl z ↦
          rw (e, z, phdr_cb-after after (record s { lo = 0; hi = 0 }) h2)
            (
              no_code o.addr s (record s { lo = 0; hi = 0 }) o.phdrs ((==_iff s.lo 0).0 z) spans,
              ranges,
            )
      | inr z ↦ rw (e, z, phdr_cb-after after s h2) (spans, ranges)
    ])
