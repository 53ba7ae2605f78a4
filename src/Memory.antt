-- ===== src/Memory.antt =====
-- The C heap as harness/jinterop.c uses it: the three kinds of fake Java object (`JObj`, `JArr`,
-- `JBytes`) and the raw blocks (strings, element tables, byte data) that they point to.
-- A pointer is a number, 0 is NULL. `malloc` gives the next unused address, or NULL when
-- `grants` says that the system has no memory for that request; an address is never given twice.
-- A free of an address that holds nothing sets `fault`, and so does a wrong kind of object in it.
use wetype_ime_linux.Base.{
  ℕ, suc, List, [], ◌∷◌, Option, none, some, Bool, true, ◌==◌, if◌then◌else◌,
}

-- `JField`: C strings are the lists of their bytes; `type` is one of `s i l f z o`, `val` is the word in the pointer slot.
pub record JField : Type 0 where
  pub name : List ℕ
  pub type : ℕ
  pub owned : Bool
  pub val : ℕ

-- `JObj`; `f[0 .. n)` is the list.
pub record JObj : Type 0 where
  pub magic : ℕ
  pub cls : List ℕ
  pub f : List JField

-- `JArr`: `elem` is the address of the table of `len` pointers.
pub record JArr : Type 0 where
  pub elem : ℕ
  pub len : ℕ

-- `JBytes`: `payload` is the address of the bytes.
pub record JBytes : Type 0 where
  pub magic : ℕ
  pub payload : ℕ
  pub len : ℕ

abbrev pub jb_magic : ℕ
jb_magic = 0x4a42595445530001

abbrev pub jo_magic : ℕ
jo_magic = 0x4a4f424a45435401

-- What one allocation holds: an object, or a raw block of words or bytes.
pub data Cell : Type 0 where
  obj : JObj → Cell
  arr : JArr → Cell
  bytes : JBytes → Cell
  raw : List ℕ → Cell

pub record Mem : Type 0 where
  pub next : ℕ
  pub grants : ℕ → Bool
  pub cell : ℕ → Option Cell
  pub fault : Bool

abbrev pub update : (ℕ → Option Cell) → ℕ → Option Cell → ℕ → Option Cell
update c p v q = if p == q then v else c q

-- `malloc` with what is then written into the block; the address, or 0.
unfoldable pub alloc : Cell → Mem → ℕ × Mem
alloc c m =
    if m.grants m.next
    then (m.next, record m { next = suc m.next; cell = update m.cell m.next (some c) })
    else (0, record m { next = suc m.next })

-- `free(p)`.
unfoldable pub free : ℕ → Mem → Mem
free p m = if p == 0 then m else elim (m.cell p) [
  | none ↦ record m { fault = true }
  | some _ ↦ record m { cell = update m.cell p none }
]

-- `free` of each address, in order.
unfoldable pub free_all : List ℕ → Mem → Mem
free_all [] m = m
free_all (p ∷ ps) m = free_all ps (free p m)

-- A store into an allocated block.
unfoldable pub store : ℕ → Cell → Mem → Mem
store p c m = elim (m.cell p) [
  | none ↦ record m { fault = true }
  | some _ ↦ record m { cell = update m.cell p (some c) }
]
