-- ===== src/Scans.antt =====
-- Runs of the model of the heap scanner (scripts/mtrace2_heapscan.c) on concrete inputs.
use wetype_ime_linux.Base.{
  ℕ, zero, suc, ◌+◌, ◌*◌, ◌≤◌, ◌<◌, true, false, length, ◌≡◌, ◌≢◌, refl, ap, List, [], ◌∷◌, some,
  ◌&&◌, ◌==◌, ltb, leb, if◌then◌else◌, All, arith,
}
use wetype_ime_linux.Daemon.Kept.{none-some, some_inj}
use wetype_ime_linux.Heapscan.{RegEnt, points_into, locate, locate_from, scan_blocks}
use wetype_ime_linux.Heapscan.Globals.{
  Loaded, start_of, end_of, widen, take_segment, take_segments, phdr_cb, scan_wx_range, Range,
  first_word, words_in, max_globals, words_at, targets_at, segment_lines,
}
use wetype_ime_linux.Heapscan.Globals.Found.{Has, IsSo, segment_lines_lem}
use wetype_ime_linux.Heapscan.Triggers.{
  Run, is_hit, spend, own_loop, dump_loop, find_code, find_each, maybe_ownscan, maybe_stackdump,
  allocate, run_allocs,
}
use wetype_ime_linux.Heapscan.Triggers.Budget.{uses, all_due, all_budgets, run_allocs-due}
use wetype_ime_linux.Heapscan.Locate.{IsSorted, IsDisjoint, points_into_lem}
use wetype_ime_linux.Heapscan.Owners.{is_inside, IsIn, IsTrue, scan_blocks-IsTrue}

-- A block of 32 bytes at 1000, and one of 64 at 2000 that points into it.
abbrev low_block : RegEnt
low_block = record { ptr = 1000; size = 32; pc = 1 }

abbrev high_block : RegEnt
high_block = record { ptr = 2000; size = 64; pc = 2 }

abbrev two_blocks : List RegEnt
two_blocks = low_block ∷ high_block ∷ []

abbrev word : ℕ → ℕ
word a = if a == 2016 then 1008 else 0

-- Sorting of at most two blocks.
abbrev sort_two : List RegEnt → List RegEnt
sort_two [] = []
sort_two (a ∷ []) = a ∷ []
sort_two (a ∷ b ∷ rest) = if leb a.ptr b.ptr then a ∷ b ∷ rest else b ∷ a ∷ rest

ptr_of : {a b : RegEnt} → some a ≡ some b → a.ptr ≡ b.ptr
ptr_of h = ap (λ (e : RegEnt). e.ptr) (some_inj h)

two-IsSorted : IsSorted two_blocks
two-IsSorted zero zero d e p q l = omega (arith, ptr_of p, ptr_of q)
two-IsSorted zero (suc zero) d e p q l = omega (arith, ptr_of p, ptr_of q)
two-IsSorted (suc zero) zero d e p q l = absurd (omega (arith, l))
two-IsSorted (suc zero) (suc zero) d e p q l = omega (arith, ptr_of p, ptr_of q)
two-IsSorted (suc (suc i)) j d e p q l = absurd (none-some p)
two-IsSorted i (suc (suc j)) d e p q l = absurd (none-some q)

two-IsDisjoint : IsDisjoint two_blocks
two-IsDisjoint zero zero d e p q l = absurd (omega (arith, l))
two-IsDisjoint zero (suc zero) d e p q l =
    let size = ap (λ (x : RegEnt). x.size) (some_inj p) in omega (arith, ptr_of p, ptr_of q, size)
two-IsDisjoint (suc zero) zero d e p q l = absurd (omega (arith, l))
two-IsDisjoint (suc zero) (suc zero) d e p q l = absurd (omega (arith, l))
two-IsDisjoint (suc (suc i)) j d e p q l = absurd (none-some p)
two-IsDisjoint i (suc (suc j)) d e p q l = absurd (none-some q)

points_into_lem_example :
    points_into two_blocks low_block 1008
    ≡ (leb low_block.ptr 1008 && ltb 1008 (low_block.ptr + low_block.size))
points_into_lem_example =
    points_into_lem two_blocks 0 1008 low_block two-IsSorted two-IsDisjoint refl

scan_blocks-IsTrue_example :
    All
      (IsTrue word (sort_two (high_block ∷ low_block ∷ [])) 32)
      (scan_blocks sort_two word 32 (high_block ∷ low_block ∷ []))
    × (scan_blocks sort_two word 32 (high_block ∷ low_block ∷ []) ≡ []
        → All (λ (t : RegEnt). t.size ≢ 32) (sort_two (high_block ∷ low_block ∷ [])))
scan_blocks-IsTrue_example =
    scan_blocks-IsTrue sort_two word 32 (high_block ∷ low_block ∷ []) two-IsSorted two-IsDisjoint

-- A segment with the word that points into the low block.
abbrev globals : Range
globals = record { lo = 2012; hi = 2030 }

segment_lines_lem_example :
    (length (segment_lines word two_blocks 32 0 globals) ≤ max_globals)
    × All
        (IsSo word two_blocks 32 0 (first_word globals) (words_in globals))
        (segment_lines word two_blocks 32 0 globals)
    × (length (segment_lines word two_blocks 32 0 globals) < max_globals
        → (t : RegEnt) → IsIn two_blocks t
        → t.size ≡ 32
        → (x : ℕ) → x < words_in globals
        → is_inside t (word (first_word globals + x * 8)) ≡ true
        → Has
            (record { seg = 0; off = x * 8; target = t })
            (segment_lines word two_blocks 32 0 globals))
segment_lines_lem_example =
    segment_lines_lem word two_blocks 32 0 globals two-IsSorted two-IsDisjoint

globals_lines :
    segment_lines word two_blocks 32 0 globals
    ≡ record { seg = 0; off = 8; target = low_block } ∷ []
unfolding segment_lines targets_at words_at first_word words_in points_into locate locate_from
globals_lines = refl

-- Two scans for blocks of 32 bytes, and one dump for a block of 64.
abbrev at_start : Run
at_start = record {
  hits = record { size = 64; left = 1 } ∷ [];
  owners = record { size = 32; left = 2 } ∷ [];
  spans = record { lo = 0; hi = 0; wr_rng = [] };
  dumps = 0;
  scans = [];
}

-- The engine library, with its code and its variables.
abbrev loaded : List Loaded
loaded =
    record {
      is_engine = true;
      addr = 65536;
      phdrs =
          record { p_type = 1; executable = true; writable = false; p_vaddr = 0; p_memsz = 4096 }
          ∷ record {
            p_type = 1;
            executable = false;
            writable = true;
            p_vaddr = 8192;
            p_memsz = 512;
          }
          ∷ [];
    }
    ∷ []

abbrev sizes : List ℕ
sizes = 32 ∷ 64 ∷ 32 ∷ 16 ∷ 32 ∷ 64 ∷ []

run_allocs-due_example :
    (uses 32 (run_allocs loaded sizes at_start).scans
      ≡ uses 32 at_start.scans + all_due 32 sizes at_start.owners)
    × ((run_allocs loaded sizes at_start).dumps
          + all_budgets (run_allocs loaded sizes at_start).hits
        ≡ at_start.dumps + all_budgets at_start.hits)
run_allocs-due_example = run_allocs-due loaded 32 sizes at_start

sizes-scans : (run_allocs loaded sizes at_start).scans ≡ 32 ∷ 32 ∷ []
unfolding run_allocs allocate maybe_ownscan maybe_stackdump own_loop dump_loop is_hit spend
sizes-scans = refl

loaded-spans :
    (run_allocs loaded sizes at_start).spans
    ≡ record { lo = 65536; hi = 69632; wr_rng = record { lo = 73728; hi = 74240 } ∷ [] }
unfolding run_allocs allocate maybe_ownscan maybe_stackdump own_loop dump_loop is_hit spend
    find_each find_code scan_wx_range phdr_cb take_segments take_segment widen start_of end_of
loaded-spans = refl
