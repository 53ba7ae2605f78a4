-- ===== src/Runs.antt =====
-- Runs of the model of the daemon's commands (harness/jinterop.c) on concrete inputs.
use wetype_ime_linux.Base.{
  ℕ, ◌≡◌, ◌≢◌, refl, List, [], ◌∷◌, ◌++◌, none, some, true, false, take, ◌==◌, if◌then◌else◌,
  str_eqb, codes, arith,
}
use mathlib.Core.List.{Mem, not-mem-nil, mem-cons, Nodup-nil, Nodup-cons}
use mathlib.Core.HLevel.{⊥_prop}
use mathlib.Core.Logic.Or
use wetype_ime_linux.Base.Int.{pos}
use wetype_ime_linux.Memory.{Mem as Memory, arr, raw}
use wetype_ime_linux.Registry.{Reg, reg_sweep}
use wetype_ime_linux.Wait.{
  is_empty, is_exact, take_event, take_events, take_round, stops, wait_loop, wait_cand, initial,
  free_it, drop_events,
}
use wetype_ime_linux.Wait.Account.{AllNew}
use wetype_ime_linux.Command.{
  In, chunk, pause, cmd_read, split_line, read_in, cmd_fill, cmd_next_is_batch,
}
use wetype_ime_linux.Fetch.{
  max_cand, get_pages, add_pages, pointers, has_dup, seen_before, release_pages, fetch_cands,
  until_nul, clear_choices,
}
use wetype_ime_linux.Fetch.Choices.{offered, all_elems, add_pages_lem}
use wetype_ime_linux.Daemon.{
  process_input, destroy_session, bye, empty, Engine, Settings, Daemon, reply, call, daemon_key,
  send_key, send_keys, settled, settle, reply_cands, params, fetch_found, waited, wait_fetch,
  reply_skips, collect, append_keys, coalesce,
}
use wetype_ime_linux.Daemon.Commands.{
  Next, go_on, strip, after_letter, gather, no_keys, do_keys, do_input, handle_input, handle,
  finish, drop_current, daemon_loop,
}
use wetype_ime_linux.Daemon.Batches.{Gathered, gather-Gathered}
use wetype_ime_linux.Daemon.Returned.{IsDistinct, AllReturned, daemon_loop-AllReturned}
use wetype_ime_linux.Daemon.Ends.{Leads, handle_answers}

not_among : {a b : ℕ} {xs : List ℕ} → a ≢ b → ¬ Mem a xs → ¬ Mem a (b ∷ xs)
not_among ne out m = Or.elim ⊥_prop (mem-cons.0 m) (λ e. ne e) (λ j. out j)

abbrev bare_reg : Reg
bare_reg = record {
  tab = [];
  n = 0;
  keep_from = 0;
  grace_ms = pos 3000;
  off = true;
  freed = 0;
  pin_calls = 0;
  last_bytes = 0;
  mem = record { next = 100; grants = λ a. true; cell = λ a. none; fault = false };
}

abbrev engine : Engine
engine = record {
  get_n = some (λ it b r. (0, r));
  react = λ c r. r;
  has_create = true;
  has_destroy = true;
  has_gc = false;
  has_symbol = λ x. false;
  answer = λ x a. pos 0;
  session = λ c. pos 5;
}

abbrev settings : Settings
settings = record { quiet_ms = 150; max_setting = none; gc_every = pos 1; atoi = λ x. pos 0 }

abbrev no_input : In
no_input = record { buf = []; feed = [] }

-- A daemon that uses iterator 4; iterator 3 comes late, and 7 is for the letter to be sent.
abbrev before : Daemon
before = record {
  input = no_input;
  obs =
      record { queue = record { it = 3; known = false; input = [] } ∷ []; now = 5 }
      ∷ record { queue = record { it = 7; known = true; input = codes "n" } ∷ []; now = 10 }
      ∷ [];
  t0s = 6 ∷ [];
  sid = pos 3;
  sent = [];
  sent_known = true;
  spans = false;
  since_gc = 0;
  f = record { choices = []; cur_it = 4; deleted = []; reg = bare_reg };
  calls = [];
  out = [];
}

abbrev after : Daemon
after = record {
  input = no_input;
  obs = [];
  t0s = [];
  sid = pos 3;
  sent = codes "n";
  sent_known = true;
  spans = false;
  since_gc = 0;
  f = record { choices = []; cur_it = 7; deleted = 3 ∷ 4 ∷ []; reg = bare_reg };
  calls = process_input (codes "d n") ∷ process_input (codes "u n") ∷ [];
  out = empty ∷ [];
}

run-eq : handle engine settings (codes "B n") before ≡ some (go_on after)
unfolding handle strip until_nul str_eqb after_letter handle_input do_input gather coalesce
    cmd_next_is_batch cmd_fill read_in split_line do_keys no_keys settle settled drop_events free_it
    reg_sweep send_keys send_key daemon_key call wait_fetch wait_cand wait_loop initial take_round
    stops take_events take_event is_exact waited fetch_found fetch_cands max_cand get_pages
    add_pages pointers has_dup release_pages reply_skips reply_cands reply collect params
run-eq = refl

some_command : is_empty (strip (until_nul (codes "B n"))) ≡ false
unfolding strip until_nul
some_command = refl

before-AllNew : AllNew 4 before.obs
before-AllNew = (
  ((λ e. omega (arith, e), λ e. omega (arith, e)), tt),
  (((λ e. omega (arith, e), λ e. omega (arith, e)), tt), tt),
)

-- The whole loop: the batch, then the end.
abbrev opening : Daemon
opening = record before { input = record { buf = codes "B n\nQ\n"; feed = [] } }

abbrev closing : Daemon
closing = record after {
  f = record { choices = []; cur_it = 7; deleted = 3 ∷ 4 ∷ 7 ∷ []; reg = bare_reg };
  calls = process_input (codes "d n") ∷ process_input (codes "u n") ∷ destroy_session ∷ [];
  out = empty ∷ bye ∷ [];
}

loop-eq : daemon_loop 3 engine settings opening ≡ some closing
unfolding daemon_loop cmd_read split_line finish drop_current clear_choices handle strip until_nul
    str_eqb after_letter handle_input do_input gather coalesce cmd_next_is_batch cmd_fill read_in
    do_keys no_keys settle settled drop_events free_it reg_sweep send_keys send_key daemon_key call
    wait_fetch wait_cand wait_loop initial take_round stops take_events take_event is_exact waited
    fetch_found fetch_cands max_cand get_pages add_pages pointers has_dup release_pages reply_skips
    reply_cands reply collect params
loop-eq = refl

opening-IsDistinct : IsDistinct opening
opening-IsDistinct = record {
  once = Nodup-cons.1 (
    not_among (omega arith) (not_among (omega arith) not-mem-nil),
    Nodup-cons.1 (not_among (omega arith) not-mem-nil, Nodup-cons.1 (not-mem-nil, Nodup-nil)),
  );
  real = (λ e. omega (arith, e), (λ e. omega (arith, e), tt));
}

daemon_loop-AllReturned_example : AllReturned opening closing
daemon_loop-AllReturned_example =
    daemon_loop-AllReturned engine settings (λ it b r. (0, r)) refl 3 opening closing
      opening-IsDistinct loop-eq

-- The engine is quiet in the end.
abbrev patient : Daemon
patient = record before {
  obs = record { queue = []; now = 5 } ∷ record { queue = []; now = 2600 } ∷ [];
}

handle_answers_example :
    (n : Next) × (handle engine settings (codes "B n") patient ≡ some n)
    × Leads (strip (until_nul (codes "B n"))) patient n
handle_answers_example =
    handle_answers engine settings (codes "B n") patient
      (record {
        t0 = 6;
        ts = [];
        clock = refl;
        first = record { queue = []; now = 5 };
        before = [];
        late = record { queue = []; now = 2600 };
        after = [];
        split = refl;
        quiet = refl;
        over = omega arith;
        fits = omega arith;
      })
      some_command

-- A page of two candidates that are no objects.
abbrev paged : Memory
paged = record {
  next = 100;
  grants = λ a. true;
  cell = λ a.
      if a == 1
      then some (arr (record { elem = 2; len = 2 }))
      else if a == 2
      then some (raw (8 ∷ 9 ∷ []))
      else none;
  fault = false;
}

add_pages_lem_example :
    (add_pages 72 (1 ∷ []) ([], paged)).0 ≡ take 72 ([] ++ offered (all_elems (1 ∷ []) paged) paged)
add_pages_lem_example = add_pages_lem 72 (1 ∷ []) [] paged (λ a. refl) (omega arith)

apart : has_dup [] (8 ∷ 9 ∷ 1 ∷ []) ≡ false
unfolding has_dup seen_before
apart = refl

-- Two more batches wait behind the line that was read.
abbrev queued : In
queued = record { buf = codes "B i\nB"; feed = chunk (codes " j\n") ∷ pause ∷ [] }

-- They are taken in, in order.
gather-queued :
    gather false (codes "n") queued
    ≡ some (record { keys = codes "nij"; skipped = 2; input = no_input })
unfolding gather coalesce cmd_next_is_batch cmd_fill read_in split_line cmd_read append_keys
    until_nul
gather-queued = refl

gather-Gathered_example : Gathered queued (gather false (codes "n") queued)
gather-Gathered_example = gather-Gathered false (codes "n") queued (omega arith)
