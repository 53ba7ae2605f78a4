-- ===== src/Trace.antt =====
-- The allocation tracer (harness/malloc_trace.c): the counters, the table of call sites, the arena
-- that serves before the real allocator is found, and the functions that replace it.
-- An atomic operation is one step, and one thread runs at a time. The blocks that the real allocator
-- gives are the list `gives`, 0 where it fails; past its end it fails. What a header holds at the
-- address of the block handed out is `heads`. Of the dump only the lines of
-- the sites are modelled, and the backtraces are left out.
pub mod Arena
pub mod Accounts
pub mod Probes
pub mod Top
use wetype_ime_linux.Base.{
  ℕ, zero, suc, ◌+◌, ◌-◌, ◌*◌, ◌/◌, ◌%◌, ◌^◌, List, [], ◌∷◌, Option, none, some, Bool, true, false,
  not, ◌&&◌, ◌||◌, ◌==◌, ltb, leb, if◌then◌else◌,
}

-- Sums and differences of `unsigned long`.
abbrev pub add_word : ℕ → ℕ → ℕ
add_word a b = (a + b) % 2 ^ 64

abbrev pub sub_word : ℕ → ℕ → ℕ
sub_word a b = (a + (2 ^ 64 - b % 2 ^ 64)) % 2 ^ 64

-- `HDRSZ`, `NBIN`, `NPC`, and the size of `boot`.
abbrev pub header_size : ℕ
header_size = 32

abbrev pub bins_count : ℕ
bins_count = 12

abbrev pub sites_count : ℕ
sites_count = 8192

abbrev pub boot_size : ℕ
boot_size = 65536

-- The loop of `bin_of`.
unfoldable pub bin_from : ℕ → ℕ → ℕ → ℕ
bin_from zero b n = b
bin_from (suc fuel) b n =
    let next = bin_from fuel (b + 1) n in
    if ltb (b + 1) bins_count && ltb (16 * 2 ^ b) n then next else b

-- `bin_of`.
unfoldable pub bin_of : ℕ → ℕ
bin_of n = bin_from bins_count 0 n

-- `PCEnt`.
pub record Site : Type 0 where
  pub pc : ℕ
  pub bytes : ℕ
  pub cnt : ℕ

abbrev pub Sites : Type 0
Sites = ℕ → Site

-- `pc_hash`; the mask is a remainder, as `NPC` is a power of two.
unfoldable pub pc_hash : ℕ → ℕ
pc_hash pc = (pc / 16 * 2654435761) % 2 ^ 64 % sites_count

unfoldable pub set_site : ℕ → Site → Sites → Sites
set_site i e tab = λ j. if j == i then e else tab j

-- The probes of `pc_find` that are left, from slot `h`: the slot, and the table.
unfoldable pub pc_probe : ℕ → ℕ → ℕ → Bool → Sites → Option ℕ × Sites
pc_probe zero h pc create tab = (none, tab)
pc_probe (suc left) h pc create tab =
    let i = h % sites_count in
    let next = pc_probe left (h + 1) pc create tab in
    if (tab i).pc == pc
    then (some i, tab)
    else if ((tab i).pc == 0) && create
    then (some i, set_site i (record (tab i) { pc = pc }) tab)
    else next

-- `pc_find`.
unfoldable pub pc_find : ℕ → Bool → Sites → Option ℕ × Sites
pc_find pc create tab = pc_probe 16 (pc_hash pc) pc create tab

-- `H`, where its magic number is right.
pub record Head : Type 0 where
  pub size : ℕ
  pub pc : ℕ
  pub base : ℕ

-- `state`.
pub data Phase : Type 0 where
  unresolved resolving resolved : Phase

pub record Trace : Type 0 where
  pub live_bytes : ℕ
  pub live_objs : ℕ
  pub n_malloc : ℕ
  pub n_free : ℕ
  pub bin_count : ℕ → ℕ
  pub pc_tab : Sites
  pub phase : Phase
  pub boot : ℕ
  pub boot_used : ℕ
  pub heads : ℕ → Option Head
  pub gives : List ℕ
  pub given_back : List ℕ

unfoldable pub bump : (ℕ → ℕ) → ℕ → (ℕ → ℕ) → ℕ → ℕ
bump f b c i = if i == b then f (c i) else c i

-- What the site of the call counts.
unfoldable pub count_site : (ℕ → ℕ) → (ℕ → ℕ) → ℕ → Bool → Sites → Sites
count_site f g pc create tab =
    let (slot, tab') = pc_find pc create tab in
    elim slot [
      | none ↦ tab'
      | some i ↦
          set_site i (record (tab' i) { bytes = f (tab' i).bytes; cnt = g (tab' i).cnt }) tab'
    ]

-- `count_new`.
unfoldable pub count_new : ℕ → ℕ → Trace → Trace
count_new n pc t = record t {
  live_bytes = add_word t.live_bytes n;
  live_objs = add_word t.live_objs 1;
  bin_count = bump (λ c. add_word c 1) (bin_of n) t.bin_count;
  pc_tab = count_site (λ b. add_word b n) (λ c. add_word c 1) pc true t.pc_tab;
  n_malloc = add_word t.n_malloc 1;
}

-- `count_del`.
unfoldable pub count_del : ℕ → ℕ → Trace → Trace
count_del n pc t = record t {
  live_bytes = sub_word t.live_bytes n;
  live_objs = sub_word t.live_objs 1;
  bin_count = bump (λ c. sub_word c 1) (bin_of n) t.bin_count;
  n_free = add_word t.n_free 1;
  pc_tab = count_site (λ b. sub_word b n) (λ c. sub_word c 1) pc false t.pc_tab;
}

-- `(x + (a - 1)) & ~(a - 1)`, for a power of two.
abbrev pub round_up : ℕ → ℕ → ℕ
round_up x a = add_word x (a - 1) / a * a

-- `boot_alloc`, which is called with 16 for its `align` only: 0 where it fails.
unfoldable pub boot_alloc : ℕ → Trace → ℕ × Trace
boot_alloc n t =
    let off = round_up t.boot_used 16 in
    let m = round_up n 16 in
    if ltb boot_size (add_word off m)
    then (0, t)
    else (t.boot + off, record t { boot_used = add_word off m })

-- `ready`: resolving ends in the call, unless the call is one that resolving makes.
unfoldable pub ready : Trace → Bool × Trace
ready t = elim t.phase [
  | unresolved ↦ (true, record t { phase = resolved })
  | resolving ↦ (false, t)
  | resolved ↦ (true, t)
]

-- The real `malloc`.
unfoldable pub real_malloc : Trace → ℕ × Trace
real_malloc t = elim t.gives [ [] ↦ (0, t) | p ∷ ps ↦ (p, record t { gives = ps }) ]

unfoldable pub set_head : ℕ → Option Head → Trace → Trace
set_head p h t = record t { heads = λ q. if q == p then h else t.heads q }

-- A header written before `p`, and the block counted.
unfoldable pub put_head : ℕ → ℕ → ℕ → ℕ → Trace → Trace
put_head p base n pc t =
    count_new n pc (set_head p (some (record { size = n; pc = pc; base = base })) t)

-- `tag`.
unfoldable pub tag : ℕ → ℕ → ℕ → Trace → ℕ × Trace
tag base n pc t =
    if base == 0 then (0, t) else (base + header_size, put_head (base + header_size) base n pc t)

-- A block for `n` bytes and what goes with them.
unfoldable pub raw_block : ℕ → Trace → ℕ × Trace
raw_block n t = let (ok, t₁) = ready t in if ok then real_malloc t₁ else boot_alloc n t₁

-- `malloc_pc`; `calloc_pc` is the same but for the zeroes.
unfoldable pub malloc_pc : ℕ → ℕ → Trace → ℕ × Trace
malloc_pc n pc t = let (base, t₁) = raw_block (add_word n header_size) t in tag base n pc t₁

-- `memalign_pc`.
unfoldable pub memalign_pc : ℕ → ℕ → ℕ → Trace → ℕ × Trace
memalign_pc n align pc t =
    let (base, t₁) = raw_block (add_word (add_word n header_size) align) t in
    let p = round_up (base + header_size) align in
    if leb align 16
    then malloc_pc n pc t
    else if base == 0
    then (0, t₁)
    else (p, put_head p base n pc t₁)

-- `calloc`: the product wraps.
unfoldable pub calloc : ℕ → ℕ → ℕ → Trace → ℕ × Trace
calloc a b pc t = malloc_pc (a * b % 2 ^ 64) pc t

-- `free`; a block given back has no header that may be read.
unfoldable pub free_block : ℕ → Trace → Trace
free_block p t =
    if p == 0
    then t
    else if leb t.boot p && ltb p (t.boot + boot_size)
    then t
    else elim (t.heads p) [
      | none ↦
          (let (ok, t₁) = ready t in
            if ok then record t₁ { given_back = p ∷ t₁.given_back } else t₁)
      | some h ↦
          (let (ok, t₁) = ready t in
            let t₂ = set_head p none (count_del h.size h.pc t₁) in
            if ok then record t₂ { given_back = h.base ∷ t₂.given_back } else t₁)
    ]

-- `realloc` of a block that the tracer made: the real one gives back the old base for the new.
unfoldable pub realloc_known : ℕ → Head → ℕ → ℕ → Trace → ℕ × Trace
realloc_known p h n pc t =
    let (ok, t₁) = ready t in
    let (base, t₂) = real_malloc t₁ in
    let t₃ = record t₂ { given_back = h.base ∷ t₂.given_back } in
    if not ok
    then (0, t₁)
    else if base == 0
    then (0, t₂)
    else tag base n h.pc (count_del h.size h.pc (set_head p none t₃))

-- `realloc`; a block that the tracer did not make is passed on.
unfoldable pub realloc : ℕ → ℕ → ℕ → Trace → ℕ × Trace
realloc p n pc t =
    let (ok, t₁) = ready t in
    let (q, t₂) = real_malloc t₁ in
    let passed_on = if q == 0 then t₂ else record t₂ { given_back = p ∷ t₂.given_back } in
    if p == 0 then malloc_pc n pc t else elim (t.heads p) [
      | none ↦ if ok then (q, passed_on) else boot_alloc n t₁
      | some h ↦ realloc_known p h n pc t
    ]
