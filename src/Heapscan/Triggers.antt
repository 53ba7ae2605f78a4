-- ===== src/Heapscan/Triggers.antt =====
-- What sets off the reports of scripts/mtrace2_heapscan.c: the sizes and counts that the environment
-- sets, and the allocations of such a size. `strtoul` is a parameter: the value, and the text after it.
pub mod Budget
use wetype_ime_linux.Base.{
  ℕ, zero, suc, ◌+◌, ◌-◌, ◌*◌, ◌/◌, ◌%◌, ◌^◌, List, [], ◌∷◌, ◌++◌, Option, none, some, Bool, true,
  false, not, ◌&&◌, ◌||◌, ◌==◌, ltb, leb, if◌then◌else◌,
}
use wetype_ime_linux.Heapscan.Globals.{Spans, Loaded, scan_wx_range}

-- An entry of `hit_size` and `hit_left`, or of `own_target` and `own_left`; the count is the word of
-- an `int`.
pub record Trigger : Type 0 where
  pub size : ℕ
  pub left : ℕ

abbrev pub max_hits : ℕ
max_hits = 8

abbrev pub max_owners : ℕ
max_owners = 4

-- `(int)`, and whether an `int` is above 0.
abbrev pub int_word : ℕ → ℕ
int_word v = v % 2 ^ 32

abbrev pub above_zero : ℕ → Bool
above_zero w = ltb 0 w && ltb w (2 ^ 31)

abbrev pub head_among : ℕ → ℕ → List ℕ → Bool
head_among a b [] = false
head_among a b (c ∷ p) = (c == a) || (c == b)

abbrev pub tail : List ℕ → List ℕ
tail [] = []
tail (c ∷ p) = p

module _ (strtoul : List ℕ → ℕ × List ℕ) where
  -- The loop over `MTRACE_STACKDUMP` with `k` entries left: `.` or `:` before a count, `+` or `,`
  -- between entries.
  unfoldable pub read_hits : ℕ → List ℕ → List Trigger
  read_hits zero p = []
  read_hits (suc k) [] = []
  read_hits (suc k) (c ∷ p) =
      let n = strtoul (c ∷ p) in
      let count = if head_among 0x2e 0x3a n.1 then strtoul (tail n.1) else (0, n.1) in
      let next = if head_among 0x2b 0x2c count.1 then tail count.1 else count.1 in
      record { size = n.0; left = int_word count.0 } ∷ read_hits k next

  -- The loop over `MTRACE_OWNERS`: the count is 1 if none is given, and only `+` goes on.
  unfoldable pub read_owners : ℕ → List ℕ → List Trigger
  read_owners zero p = []
  read_owners (suc k) [] = []
  read_owners (suc k) (c ∷ p) =
      let n = strtoul (c ∷ p) in
      let count = if head_among 0x2e 0x3a n.1 then strtoul (tail n.1) else (1, n.1) in
      let rest = read_owners k (tail count.1) in
      record { size = n.0; left = int_word count.0 }
      ∷ (if head_among 0x2b 0x2b count.1 then rest else [])

-- Whether an allocation of `n` bytes sets a trigger off.
unfoldable pub is_hit : ℕ → Trigger → Bool
is_hit n t = not (t.size == 0) && (n == t.size) && above_zero t.left

unfoldable pub spend : Trigger → Trigger
spend t = record t { left = t.left - 1 }

-- The loop of `maybe_ownscan`: the triggers after it, and the sizes that are scanned for.
unfoldable pub own_loop : ℕ → List Trigger → List Trigger × List ℕ
own_loop n [] = ([], [])
own_loop n (t ∷ ts) =
    let rest = own_loop n ts in
    if is_hit n t then (spend t ∷ rest.0, t.size ∷ rest.1) else (t ∷ rest.0, rest.1)

-- The loop of `maybe_stackdump`: the triggers after it, and whether the stack is dumped; only the
-- first one that is set off counts.
unfoldable pub dump_loop : ℕ → List Trigger → List Trigger × Bool
dump_loop n [] = ([], false)
dump_loop n (t ∷ ts) =
    let rest = dump_loop n ts in if is_hit n t then (spend t ∷ ts, true) else (t ∷ rest.0, rest.1)

-- The words of the stack that are written: of `k` words from word `w` those in the code of the engine.
unfoldable pub stack_words : (ℕ → ℕ) → ℕ → ℕ → ℕ → ℕ → List (ℕ × ℕ)
stack_words fp lo hi zero w = []
stack_words fp lo hi (suc k) w =
    let rest = stack_words fp lo hi k (suc w) in
    if leb lo (fp w) && ltb (fp w) hi then (w * 8, fp w) ∷ rest else rest

-- The triggers, the segments of the library (`wx_lo`, `wx_hi`, `wr_rng`), the number of dumps, and the
-- sizes scanned for.
pub record Run : Type 0 where
  pub hits : List Trigger
  pub owners : List Trigger
  pub spans : Spans
  pub dumps : ℕ
  pub scans : List ℕ

module _ (loaded : List Loaded) where
  -- `if (!wx_lo) scan_wx_range();`.
  unfoldable pub find_code : Spans → Spans
  find_code s = if s.lo == 0 then scan_wx_range loaded s.wr_rng else s

  -- The segments after the scans for these sizes, each of which looks for them once more.
  unfoldable pub find_each : List ℕ → Spans → Spans
  find_each [] s = s
  find_each (size ∷ sizes) s = find_each sizes (find_code s)

  -- `maybe_stackdump`.
  unfoldable pub maybe_stackdump : ℕ → Run → Run
  maybe_stackdump n r =
      let d = dump_loop n r.hits in
      record r {
        hits = d.0;
        spans = if d.1 then find_code r.spans else r.spans;
        dumps = r.dumps + (if d.1 then 1 else 0);
      }

  -- `maybe_ownscan`.
  unfoldable pub maybe_ownscan : ℕ → Run → Run
  maybe_ownscan n r =
      let o = own_loop n r.owners in
      record r { owners = o.0; spans = find_each o.1 (find_code r.spans); scans = r.scans ++ o.1 }

  -- Both at an allocation of `n` bytes, as `count_new` does, and at a run of allocations.
  unfoldable pub allocate : ℕ → Run → Run
  allocate n r = maybe_ownscan n (maybe_stackdump n r)

  unfoldable pub run_allocs : List ℕ → Run → Run
  run_allocs [] r = r
  run_allocs (n ∷ ns) r = run_allocs ns (allocate n r)
