-- ===== src/Heapscan.antt =====
-- The heap scanner scripts/mtrace2_heapscan.c: the registry of live blocks, the search for the block
-- that an address lies in, the search for the blocks that hold a pointer into a block of a given size,
-- and what the environment sets. `qsort`, `strtoul` and the words of memory are parameters.
-- What the scanner shares with harness/malloc_trace.c is modelled in Trace.
pub mod Globals
pub mod Live
pub mod Locate
pub mod Owners
pub mod Triggers
use wetype_ime_linux.Base.{
  ℕ, zero, suc, ◌+◌, ◌-◌, ◌*◌, ◌/◌, ◌%◌, ◌^◌, List, [], ◌∷◌, ◌++◌, Option, none, some, Bool, true,
  false, not, ◌&&◌, ◌||◌, ◌==◌, ltb, leb, if◌then◌else◌, length, get_elem?, set,
}

-- `RegEnt`; a slot of the registry with `ptr` 0 is free.
pub record RegEnt : Type 0 where
  pub ptr : ℕ
  pub size : ℕ
  pub pc : ℕ

abbrev pub Live : Type 0
Live = ℕ → RegEnt

-- `REG_SLOTS`, and the slots that a block may take.
abbrev pub reg_slots : ℕ
reg_slots = 524288

abbrev pub reg_probes : ℕ
reg_probes = 64

-- `reg_hash`; the mask is a remainder.
unfoldable pub reg_hash : ℕ → ℕ
reg_hash p = (p / 16 * 11400714819323198485) % 2 ^ 64 % reg_slots

unfoldable pub set_slot : ℕ → RegEnt → Live → Live
set_slot i e tab j = if j == i then e else tab j

-- The probes of `reg_add` that are left, from slot `h`.
unfoldable pub add_probe : ℕ → ℕ → RegEnt → Live → Live
add_probe zero h e tab = tab
add_probe (suc left) h e tab =
    let i = h % reg_slots in
    let next = add_probe left (suc h) e tab in
    if ((tab i).ptr == 0) || ((tab i).ptr == e.ptr) then set_slot i e tab else next

-- `reg_add`.
unfoldable pub reg_add : ℕ → ℕ → ℕ → Live → Live
reg_add p n pc tab =
    if p == 0
    then tab
    else add_probe reg_probes (reg_hash p) (record { ptr = p; size = n; pc = pc }) tab

-- The probes of `reg_del` that are left.
unfoldable pub del_probe : ℕ → ℕ → ℕ → Live → Live
del_probe zero h p tab = tab
del_probe (suc left) h p tab =
    let i = h % reg_slots in
    let next = del_probe left (suc h) p tab in
    if (tab i).ptr == p
    then set_slot i (record (tab i) { ptr = 0 }) tab
    else if (tab i).ptr == 0
    then tab
    else next

-- `reg_del`.
unfoldable pub reg_del : ℕ → Live → Live
reg_del p tab = if p == 0 then tab else del_probe reg_probes (reg_hash p) p tab

-- The live blocks of the slots from `i` on, with `k` slots left and room for `room` blocks.
unfoldable pub collect : ℕ → ℕ → ℕ → Live → List RegEnt
collect zero i room tab = []
collect (suc k) i zero tab = []
collect (suc k) i (suc room) tab =
    let skipped = collect k (suc i) (suc room) tab in
    let taken = tab i ∷ collect k (suc i) room tab in if (tab i).ptr == 0 then skipped else taken

-- The binary search for the last block that begins at `v` or before. `hi` is one more than in the
-- code, where it can be -1; `k` is `none` for -1.
unfoldable pub locate_from : ℕ → List RegEnt → ℕ → ℕ → ℕ → Option ℕ → Option ℕ
locate_from zero arr v lo hi k = k
locate_from (suc fuel) arr v lo hi k =
    let mid = (lo + (hi - 1)) / 2 in
    let right = locate_from fuel arr v (suc mid) hi (some mid) in
    let left = locate_from fuel arr v lo mid k in
    if ltb lo hi
    then (elim (get_elem? arr mid) [ none ↦ k | some e ↦ if leb e.ptr v then right else left ])
    else k

unfoldable pub locate : List RegEnt → ℕ → Option ℕ
locate arr v = locate_from (suc (length arr)) arr v 0 (length arr) none

-- Whether `v` points into block `t`, by its bounds and by the search.
unfoldable pub points_into : List RegEnt → RegEnt → ℕ → Bool
points_into arr t v = if ltb v t.ptr || leb (t.ptr + t.size) v then false else elim (locate arr v) [
  | none ↦ false
  | some k ↦ elim (get_elem? arr k) [ none ↦ false | some e ↦ e.ptr == t.ptr ]
]

-- The first of `k` words, from word `w` of the block at `p` on, that points into `t`.
unfoldable pub first_ref : (ℕ → ℕ) → List RegEnt → RegEnt → ℕ → ℕ → ℕ → Option ℕ
first_ref word arr t p zero w = none
first_ref word arr t p (suc k) w =
    let rest = first_ref word arr t p k (suc w) in
    if points_into arr t (word (p + w * 8)) then some w else rest

-- The words of a block that are read: none of a small block, and at most 64 KiB.
unfoldable pub words_of : RegEnt → ℕ
words_of e = if ltb e.size 24 then 0 else if ltb 8192 (e.size / 8) then 8192 else e.size / 8

-- What is written: that a block holds a pointer into a target, at an offset, or that none does.
pub data Line : Type 0 where
  edge : RegEnt → RegEnt → ℕ → Line
  no_ref : RegEnt → Line

-- The loop over the blocks that may refer to `t`, with `refs` found for it and `edges` in all.
unfoldable pub refs_to : (ℕ → ℕ) → List RegEnt → RegEnt → List RegEnt → ℕ → ℕ → List Line
refs_to word arr t [] refs edges = []
refs_to word arr t (b ∷ bs) refs edges =
    let rest = refs_to word arr t bs refs edges in
    let more = refs_to word arr t bs (suc refs) (suc edges) in
    if ltb refs 8 && ltb edges 600
    then (elim (first_ref word arr t b.ptr (words_of b) 0) [
      | none ↦ rest
      | some w ↦ edge t b (w * 8) ∷ more
    ])
    else []

-- The edges among some lines.
unfoldable pub edges_of : List Line → ℕ
edges_of [] = 0
edges_of (edge t b o ∷ ls) = suc (edges_of ls)
edges_of (no_ref t ∷ ls) = edges_of ls

-- What is written for a target.
unfoldable pub target_lines : (ℕ → ℕ) → List RegEnt → RegEnt → ℕ → List Line
target_lines word arr t edges =
    let ls = refs_to word arr t arr 0 edges in elim ls [ [] ↦ no_ref t ∷ [] | l ∷ more ↦ l ∷ more ]

-- The loop over the targets, the last block first: `found` of them so far, of which eight are shown.
unfoldable pub scan_targets : (ℕ → ℕ) → List RegEnt → ℕ → List RegEnt → ℕ → ℕ → List Line
scan_targets word arr size [] found edges = []
scan_targets word arr size (t ∷ ts) found edges =
    let ls = target_lines word arr t edges in
    let other = scan_targets word arr size ts found edges in
    let hidden = scan_targets word arr size ts (suc found) edges in
    let shown = ls ++ scan_targets word arr size ts (suc found) (edges + edges_of ls) in
    if not (ltb edges 600)
    then []
    else if not (t.size == size)
    then other
    else if ltb 8 (suc found)
    then hidden
    else shown

unfoldable pub reversed : List RegEnt → List RegEnt → List RegEnt
reversed [] acc = acc
reversed (e ∷ es) acc = reversed es (e ∷ acc)

-- `ownership_scan` on the live blocks collected, with `qsort` as a parameter; the scan of the global
-- variables and the framing lines are left out.
unfoldable pub scan_blocks : (List RegEnt → List RegEnt) → (ℕ → ℕ) → ℕ → List RegEnt → List Line
scan_blocks qsort word size blocks =
    let arr = qsort blocks in scan_targets word arr size (reversed arr []) 0 0

unfoldable pub ownership_scan : (List RegEnt → List RegEnt) → (ℕ → ℕ) → ℕ → Live → List Line
ownership_scan qsort word size tab =
    scan_blocks qsort word size (collect reg_slots 0 (reg_slots / 2) tab)
