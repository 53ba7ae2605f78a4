-- ===== src/Calls.antt =====
-- Runs of the model of the fake JNI environment and of the program's start (harness/jinterop.c),
-- and of the stand-in for libandroid (shim/libandroid.c), on concrete inputs.
use wetype_ime_linux.Shim.{Shim, asset_roots, open_file, open_from, asset_open, poll_once}
use wetype_ime_linux.Shim.Assets.{Ended, asset_open-Ended}
use wetype_ime_linux.Base.{
  ℕ, ◌-◌, ◌≤◌, ◌≡◌, refl, List, [], ◌∷◌, Option, none, some, true, false, ◌==◌, ◌^◌, ltb,
  if◌then◌else◌, length, get_elem?, codes, str_eqb, arith,
}
use wetype_ime_linux.Base.Int.{pos, negsuc}
use wetype_ime_linux.Memory.{Mem, arr, bytes, raw, JArr, JBytes, jb_magic}
use wetype_ime_linux.Registry.{Reg}
use wetype_ime_linux.Objects.Fresh.{IsFresh}
use wetype_ime_linux.Fetch.{until_nul}
use wetype_ime_linux.Access.{
  new_object, get_object_array_element, set_object_array_element, set_byte_array_region,
}
use wetype_ime_linux.Access.Arrays.{
  IsArray, in_array, same_index, get-set_object_array_element, IsBytes, covers, start_of,
  set_byte_array_region_lem,
}
use wetype_ime_linux.Access.Strings.{Holds, new_object-Holds}
use wetype_ime_linux.Start.{dict_table, chosen}
use wetype_ime_linux.Start.Order.{IsLoaded, chosen-IsLoaded}

-- An array of two pointers at 10, and a byte array of four bytes at 20.
abbrev pair : JArr
pair = record { elem = 11; len = 2 }

abbrev quad : JBytes
quad = record { magic = jb_magic; payload = 21; len = 4 }

abbrev heap : Mem
heap = record {
  next = 100;
  grants = λ a. true;
  cell = λ a.
      if a == 10
      then some (arr pair)
      else if a == 11
      then some (raw (7 ∷ 8 ∷ []))
      else if a == 20
      then some (bytes quad)
      else if a == 21
      then some (raw (codes "abcd"))
      else none;
  fault = false;
}

pair-IsArray : IsArray 10 pair (7 ∷ 8 ∷ []) heap
pair-IsArray = record {
  real = λ e. omega (arith, e);
  here = refl;
  table = refl;
  size = omega arith;
  apart = λ e. omega (arith, e);
}

get-set_object_array_element_example :
    get_object_array_element 10 (pos 1) (set_object_array_element 10 (pos 1) 9 heap) ≡ (
      if in_array (pos 1) pair
      then (if same_index (pos 1) (pos 1) then 9 else get_object_array_element 10 (pos 1) heap)
      else 0)
get-set_object_array_element_example =
    get-set_object_array_element 10 pair (7 ∷ 8 ∷ []) heap pair-IsArray (pos 1) (pos 1) 9

quad-IsBytes : IsBytes 20 quad (codes "abcd") heap
quad-IsBytes = record {
  real = λ e. omega (arith, e);
  here = refl;
  filled = λ e. omega (arith, e);
  stored = refl;
  size = refl;
  apart = λ e. omega (arith, e);
}

two_bytes : (n : ℕ) → pos 2 ≡ pos n → n ≤ length (codes "xyz")
two_bytes n e = ground (arith, e)

set_byte_array_region_lem_example :
    (ws' : List ℕ) × IsBytes 20 quad ws'
      (set_byte_array_region 20 (pos 1) (pos 2) (some (codes "xyz")) heap)
    × ((j : ℕ)
        → get_elem? ws' j ≡ (
            if covers (pos 1) (pos 2) (length (codes "abcd")) j
            then get_elem? (codes "xyz") (j - start_of (pos 1))
            else get_elem? (codes "abcd") j))
set_byte_array_region_lem_example =
    set_byte_array_region_lem 20 quad (codes "abcd") heap quad-IsBytes (pos 1) (pos 2) (codes "xyz")
      (omega arith) two_bytes

-- A registry without entries; the byte array was made last.
abbrev registry : Reg
registry = record {
  tab = [];
  n = 0;
  keep_from = 0;
  grace_ms = pos 3000;
  off = false;
  freed = 0;
  pin_calls = 0;
  last_bytes = 20;
  mem = heap;
}

heap-IsFresh : IsFresh heap
heap-IsFresh = record { unused = λ a h. ground (arith, h); positive = omega arith }

new_object-Holds_example :
    let (o, r') = new_object (codes "java/lang/String") 5 registry in
    Holds o (if ltb 4 (2 ^ 20) then until_nul (codes "abcd") else []) r'.mem
new_object-Holds_example =
    new_object-Holds 5 registry quad (codes "abcd")
      (record { fits = omega arith; kept = omega arith }) heap-IsFresh (λ a. refl)
      (λ e. omega (arith, e)) refl refl refl

chosen-IsLoaded_example :
    IsLoaded
      (some (codes "sw.bin,ap.bin"))
      dict_table
      (chosen (some (codes "sw.bin,ap.bin")) dict_table)
chosen-IsLoaded_example = chosen-IsLoaded (some (codes "sw.bin,ap.bin")) dict_table (omega arith)

-- One asset, under the second root.
abbrev one_file : List ℕ → Option ℕ
one_file path = if str_eqb path (codes "runtime/assets/a.txt") then some 12 else none

abbrev no_asset : Shim
no_asset = record { handles = []; next_handle = 3; assets = λ p. none; next = 4096 }

asset_open-Ended_example :
    Ended one_file
      (λ p. true)
      (codes "a.txt")
      asset_roots
      no_asset
      (asset_open one_file (λ p. true) (codes "a.txt") no_asset).0
      (asset_open one_file (λ p. true) (codes "a.txt") no_asset).1
asset_open-Ended_example =
    asset_open-Ended one_file (λ p. true) (codes "a.txt") no_asset refl (omega arith)

a_txt-opened : (asset_open one_file (λ p. true) (codes "a.txt") no_asset).0 ≡ 4096
unfolding asset_open open_from open_file str_eqb
a_txt-opened = refl

-- A time-out of 72 minutes ends after less than a millisecond.
long_poll-short :
    poll_once (pos 4294968)
    ≡ some (record { out_fd = negsuc 0; out_events = 0; slept = 704; status = negsuc 2 })
unfolding poll_once
long_poll-short = refl
