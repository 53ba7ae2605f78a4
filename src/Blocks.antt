-- ===== src/Blocks.antt =====
-- Runs of the model of the allocation tracer (harness/malloc_trace.c) on concrete inputs.
use wetype_ime_linux.Base.{◌+◌, ◌*◌, ltb, if◌then◌else◌, ◌%◌, ◌≡◌, refl, [], ◌∷◌, none, some, true}
use wetype_ime_linux.Trace.{Trace, Sites, sites_count, resolving, pc_hash, pc_probe, pc_find}
use wetype_ime_linux.Trace.Top.{rank, top_from, top_sites}
use wetype_ime_linux.Trace.Top.Shown.{IsTop, top_sites-IsTop}
use wetype_ime_linux.Trace.Accounts.{
  total, of_class, made, gone, alive, counted, IsBalanced, counted-IsBalanced,
}

abbrev no_sites : Sites
no_sites = λ i. record { pc = 0; bytes = 0; cnt = 0 }

abbrev fresh : Trace
fresh = record {
  live_bytes = 0;
  live_objs = 0;
  n_malloc = 0;
  n_free = 0;
  bin_count = λ i. 0;
  pc_tab = no_sites;
  phase = resolving;
  boot = 4096;
  boot_used = 40;
  heads = λ p. none;
  gives = [];
  given_back = [];
}

fresh-IsBalanced : IsBalanced [] fresh
unfolding total of_class
fresh-IsBalanced = record { bytes = refl; objs = refl; classes = λ i. refl }

counted-IsBalanced_example :
    let es = made 24 4096 ∷ made 700 8192 ∷ gone 1 4096 ∷ [] in
    IsBalanced (alive es []) (counted es [] fresh)
counted-IsBalanced_example =
    counted-IsBalanced (made 24 4096 ∷ made 700 8192 ∷ gone 1 4096 ∷ []) [] fresh fresh-IsBalanced

slot_of : (pc_find 4096 true no_sites).0 ≡ some (pc_hash 4096 % 8192)
unfolding pc_find pc_probe pc_hash
slot_of = refl

-- Ten sites in use, of which site 3 holds the most bytes.
abbrev some_table : Sites
some_table = λ i.
    if ltb i 10
    then record { pc = 4096 + i; bytes = 2048 * ((i + 6) % 10); cnt = 1 + i }
    else record { pc = 0; bytes = 0; cnt = 0 }

top_sites-IsTop_example : IsTop some_table sites_count (top_sites some_table)
top_sites-IsTop_example = top_sites-IsTop some_table

first_ten : top_from some_table 10 0 [] ≡ 3 ∷ 2 ∷ 1 ∷ 0 ∷ 9 ∷ 8 ∷ 7 ∷ 6 ∷ []
unfolding top_from rank
first_ten = refl
