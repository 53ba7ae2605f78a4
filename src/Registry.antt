-- ===== src/Registry.antt =====
-- The object registry of harness/jinterop.c (`g_reg` and the `reg_*` functions): every fake Java
-- object is registered when it is made, pinned while a global reference stands, and freed by an
-- explicit release or by the sweep once it is older than the grace period.
-- The table is a C array: `tab` has a slot for each of the `cap` entries allocated, of which the
-- first `n` are in use. The clock reading `mono_ms()` is an argument of each call that takes it.
-- The mutex is held for the whole of each function's access, so a call is one step.
pub mod View
pub mod Lookup
pub mod Ownership
pub mod Safety
use wetype_ime_linux.Base.{
  ℕ, zero, suc, ◌+◌, ◌-◌, ◌*◌, List, [], ◌∷◌, ◌++◌, Option, none, some, Bool, true, false, not,
  ◌&&◌, ◌==◌, if◌then◌else◌, length, get_elem?, set, replicate,
}
use wetype_ime_linux.Base.Int.{ℤ, pos_part, neg_part, sub_ℕ, leb_ℤ}
use wetype_ime_linux.Memory.{Mem, Cell, obj, arr, bytes, JField, free}

-- `RKind`.
pub data RKind : Type 0 where
  r_jobj r_jarr r_jbytes : RKind

-- `REnt`.
pub record REnt : Type 0 where
  pub p : ℕ
  pub k : RKind
  pub t : ℕ
  pub pin : ℕ

-- The static variables of the recycler, with the heap that they manage.
pub record Reg : Type 0 where
  pub tab : List REnt
  pub n : ℕ
  pub keep_from : ℕ
  pub grace_ms : ℤ
  pub off : Bool
  pub freed : ℕ
  pub pin_calls : ℕ
  pub last_bytes : ℕ
  pub mem : Mem

-- `g_regcap`.
abbrev pub cap : Reg → ℕ
cap r = length r.tab

-- An unused slot of the table; its content is not read.
abbrev pub unused : REnt
unused = record { p = 0; k = RKind.r_jobj; t = 0; pin = 0 }

-- The growth of the table in `reg_add`: `false` is a failed `realloc`.
unfoldable pub grow : Reg → Bool × Reg
grow r =
    if r.n == cap r
    then (let nc = if cap r == 0 then 4096 else cap r * 2 in
        let m' = record (r.mem) { next = suc r.mem.next } in
        if r.mem.grants r.mem.next
        then (true, record r { tab = r.tab ++ replicate (nc - cap r) unused; mem = m' })
        else (false, record r { mem = m' }))
    else (true, r)

-- `reg_add`.
unfoldable pub reg_add : ℕ → RKind → ℕ → Reg → Reg
reg_add p k now r =
    if p == 0
    then r
    else let (grown, r') = grow r in
      if grown
      then record r' {
        tab = set r'.tab r'.n (record { p = p; k = k; t = now; pin = 0 });
        n = suc r'.n;
      }
      else r'

-- `reg_find_locked` from slot `i`, with `k` slots left.
unfoldable pub find_from : ℕ → ℕ → List REnt → ℕ → Option ℕ
find_from zero i tab p = none
find_from (suc k) i [] p = none
find_from (suc k) i (e ∷ tab) p = if e.p == p then some i else find_from k (suc i) tab p

unfoldable pub reg_find : ℕ → Reg → Option ℕ
reg_find p r = find_from r.n 0 r.tab p

-- `pin += delta`, not below 0.
abbrev pub add_pin : ℕ → ℤ → ℕ
add_pin pin delta = pin + pos_part delta - neg_part delta

-- `reg_pin`.
unfoldable pub reg_pin : ℕ → ℤ → Reg → Reg
reg_pin p delta r =
    if p == 0
    then r
    else let r' = record r { pin_calls = r.pin_calls + pos_part delta } in
      elim (reg_find p r) [
        | none ↦ r'
        | some i ↦ elim (get_elem? r.tab i) [
          | none ↦ r'
          | some e ↦ record r' { tab = set r.tab i (record e { pin = add_pin e.pin delta }) }
        ]
      ]

-- The loop of `reg_free_obj` over the fields of a `JObj`.
unfoldable pub free_fields : List JField → Mem → Mem
free_fields [] m = m
free_fields (x ∷ xs) m = free_fields xs (if (x.type == b's') && x.owned then free x.val m else m)

-- The three branches of `reg_free_obj`, on what stands at the entry's address `p`. The address must
-- hold an object of the kind that the entry says.
unfoldable pub free_cell : RKind → Option Cell → ℕ → Reg → Reg
free_cell r_jobj (some (obj o)) p r = record r { mem = free p (free_fields o.f r.mem) }
free_cell r_jbytes (some (bytes b)) p r = record r {
  last_bytes = if p == r.last_bytes then 0 else r.last_bytes;
  mem = free p (free b.payload r.mem);
}
free_cell r_jarr (some (arr a)) p r = record r { mem = free p (free a.elem r.mem) }
free_cell k c p r = record r { mem = record (r.mem) { fault = true } }

-- `reg_free_obj`.
unfoldable pub reg_free_obj : REnt → Reg → Reg
reg_free_obj e r = free_cell e.k (r.mem.cell e.p) e.p r

-- The removal in `reg_release`: the last entry takes the place of entry `i`.
unfoldable pub unregister : ℕ → Reg → Reg
unregister i r = elim (get_elem? r.tab (r.n - 1)) [
  | none ↦ r
  | some last ↦ record r { tab = set r.tab i last; n = r.n - 1 }
]

-- `reg_release`: whether the object was freed.
unfoldable pub reg_release : ℕ → Reg → Bool × Reg
reg_release p r = if p == 0 then (false, r) else elim (reg_find p r) [
  | none ↦ (false, r)
  | some i ↦ elim (get_elem? r.tab i) [
    | none ↦ (false, r)
    | some e ↦
        if not (e.pin == 0)
        then (false, r)
        else let r' = reg_free_obj e (unregister i r) in (true, record r' { freed = suc r'.freed })
  ]
]

-- `!e.pin && now - e.t >= g_gc_grace_ms`.
unfoldable pub is_dead : ℕ → ℤ → REnt → Bool
is_dead now grace e = (e.pin == 0) && leb_ℤ grace (sub_ℕ now e.t)

pub record Scan : Type 0 where
  pub tab : List REnt
  pub w : ℕ
  pub dead : List REnt

-- One round of the loop of `reg_sweep`, at slot `i`.
unfoldable pub sweep_round : ℕ → ℤ → ℕ → Scan → Scan
sweep_round now grace i s = elim (get_elem? s.tab i) [
  | none ↦ s
  | some e ↦
      if is_dead now grace e
      then record s { dead = s.dead ++ e ∷ [] }
      else record s { tab = set s.tab s.w e; w = suc s.w }
]

-- The compacting loop of `reg_sweep`, at slot `i` with `k` rounds left.
unfoldable pub sweep_loop : ℕ → ℤ → ℕ → ℕ → Scan → Scan
sweep_loop now grace zero i s = s
sweep_loop now grace (suc k) i s = sweep_loop now grace k (suc i) (sweep_round now grace i s)

-- The whole loop: the table packed, its new length, and the dead.
unfoldable pub sweep_scan : ℕ → Reg → Scan
sweep_scan now r =
    sweep_loop now r.grace_ms (r.n - r.keep_from) r.keep_from
      (record { tab = r.tab; w = r.keep_from; dead = [] })

-- `for (i < nd) reg_free_obj(dead[i])`.
unfoldable pub free_dead : List REnt → Reg → Reg
free_dead [] r = r
free_dead (e ∷ es) r = free_dead es (reg_free_obj e r)

-- `reg_sweep`, without its log lines and `malloc_trim`. The table of the dead comes from `malloc`.
unfoldable pub reg_sweep : ℕ → Reg → Reg
reg_sweep now r =
    if r.off
    then r
    else let m' = record (r.mem) { next = suc r.mem.next } in
      if not (r.mem.grants r.mem.next)
      then record r { mem = m' }
      else let s = sweep_scan now r in
        let r' = free_dead s.dead (record r { tab = s.tab; n = s.w; mem = m' }) in
        record r' { freed = r'.freed + length s.dead }

-- The start of `run_daemon`: what is registered by then is never swept.
unfoldable pub keep_all : Reg → Reg
keep_all r = record r { keep_from = r.n }
