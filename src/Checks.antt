-- ===== src/Checks.antt =====
-- Runs of the model of harness/jinterop.c on concrete inputs.
use wetype_ime_linux.Base.{
  ℕ, ◌+◌, ◌<◌, ◌≡◌, ◌≢◌, refl, ◌⊎◌, List, [], ◌∷◌, ◌++◌, none, some, true, false, str_eqb, length,
  replicate, codes, arith,
}
use mathlib.Core.List.{not-mem-nil, Nodup-nil}
use wetype_ime_linux.Base.Int.{pos}
use wetype_ime_linux.Memory.{alloc}
use wetype_ime_linux.Registry.{Reg, unused, reg_add, grow, reg_sweep, reg_release, is_dead}
use wetype_ime_linux.Registry.View.{IsTable, survivors, condemned}
use wetype_ime_linux.Registry.Ownership.{Freed, owned_all}
use wetype_ime_linux.Registry.Safety.{IsSafe, ReleaseOutcome, reg_sweep-IsSafe, reg_release-IsSafe}
use wetype_ime_linux.Objects.{obj_new, enroll}
use wetype_ime_linux.Objects.Fresh.{IsFresh, obj_new-IsSafe}
use wetype_ime_linux.Events.{
  CandEvent, is_letter, Action, set_object, new_iterator, call_static, drain, run, start, make_room,
}
use wetype_ime_linux.Events.Bounds.{IsBounded, run-IsBounded}
use wetype_ime_linux.Events.Batch.{letters, batch, run-batch}
use wetype_ime_linux.Wait.{
  Obs, Wait, Params, free_it, is_exact, take_event, take_events, quiet_of, deadline, take_round,
  stops, wait_loop, wait_cand, initial,
}
use wetype_ime_linux.Wait.Account.{AllNew, received, held, wait_cand_accounts}
use wetype_ime_linux.Command.{In, chunk, pause, newline}
use wetype_ime_linux.Command.Lines.{stream, read_lines, all_read, read_lines-sent}

-- A registry with room for eight objects and none in it.
abbrev empty : Reg
empty = record {
  tab = replicate 8 unused;
  n = 0;
  keep_from = 0;
  grace_ms = pos 100;
  off = false;
  freed = 0;
  pin_calls = 0;
  last_bytes = 0;
  mem = record { next = 1; grants = λ a. true; cell = λ a. none; fault = false };
}

empty-IsTable : IsTable empty
empty-IsTable = record { fits = omega arith; kept = omega arith }

empty-IsFresh : IsFresh empty.mem
empty-IsFresh = record { unused = λ a h. refl; positive = omega arith }

empty-IsSafe : IsSafe empty
empty-IsSafe = record {
  kinds = λ e h. absurd (not-mem-nil h);
  live = λ a h. absurd (not-mem-nil h);
  once = Nodup-nil;
}

-- With one object, made at 5, and then with another, made at 200.
abbrev one : Reg
one = (obj_new (codes "a/A") 5 empty).1

abbrev two : Reg
two = (obj_new (codes "b/B") 200 one).1

two-IsSafe : IsSafe two × IsFresh two.mem × IsTable two
two-IsSafe =
    let (safe, fresh, table) =
      obj_new-IsSafe (codes "a/A") 5 empty empty-IsTable empty-IsFresh empty-IsSafe in
    obj_new-IsSafe (codes "b/B") 200 one table fresh safe

two-on : two.off ≡ false
unfolding obj_new enroll alloc reg_add grow
two-on = refl

two-grants : two.mem.grants two.mem.next ≡ true
unfolding obj_new enroll alloc reg_add grow
two-grants = refl

-- At 210 the first object is past the grace period and the second is not.
two-condemned : (length (condemned 210 two) ≡ 1) × (length (survivors 210 two) ≡ 1)
unfolding obj_new enroll alloc reg_add grow is_dead
two-condemned = (refl, refl)

reg_sweep-IsSafe_example :
    Freed (owned_all two.mem.cell (condemned 210 two)) two.mem (reg_sweep 210 two).mem
    × IsSafe (reg_sweep 210 two)
reg_sweep-IsSafe_example = reg_sweep-IsSafe 210 two two-IsSafe.2 two-on two-grants two-IsSafe.0

reg_release-IsSafe_example : IsSafe (reg_release 1 two).1 × ReleaseOutcome 1 two (reg_release 1 two)
reg_release-IsSafe_example = reg_release-IsSafe 1 two two-IsSafe.2.fits two-IsSafe.0

start-IsBounded : IsBounded start
start-IsBounded = record {
  queue = omega arith;
  acc = omega arith;
  last = omega arith;
  pend = omega arith;
  texts = tt;
}

abbrev typed : List Action
typed =
    set_object (codes "match") (some (codes "ni"))
    ∷ drain
    ∷ new_iterator 7
    ∷ call_static (codes "onBatchEvent")
    ∷ []

run-IsBounded_example : IsBounded (run typed start)
run-IsBounded_example = run-IsBounded typed start start-IsBounded

abbrev ni : List (List ℕ)
ni = codes "n" ∷ codes "i" ∷ []

ni-fits : length start.pi_acc + length (letters ni) < 256
unfolding is_letter
ni-fits = omega arith

run-batch_example :
    let s' = run (batch ni 7) start in
    (s'.q ≡ make_room [] ++ record { it = 7; known = true; input = letters ni } ∷ [])
    × (s'.pend_it ≡ 0)
    × (s'.pi_acc ≡ [])
    × (s'.last_iterator ≡ 7)
run-batch_example = run-batch ni 7 start (λ e. omega (arith, e)) ni-fits

abbrev n_event : CandEvent
n_event = record { it = 1; known = true; input = codes "n" }

abbrev ni_event : CandEvent
ni_event = record { it = 2; known = true; input = codes "ni" }

abbrev seen : List Obs
seen =
    record { queue = []; now = 10 }
    ∷ record { queue = n_event ∷ []; now = 20 }
    ∷ record { queue = ni_event ∷ []; now = 30 }
    ∷ []

abbrev asked : Params
asked = record { expected = codes "ni"; timeout_ms = 2500; quiet_ms = 150; t0 = 0; cur = 9 }

abbrev found : Wait
found = record { best = 2; last_event = 30; exact_possible = false; exact = true; deleted = 1 ∷ [] }

seen-AllNew : AllNew 9 seen
seen-AllNew = (
  tt,
  (
    ((λ e. omega (arith, e), λ e. omega (arith, e)), tt),
    (((λ e. omega (arith, e), λ e. omega (arith, e)), tt), tt),
  ),
)

seen-wait : wait_cand asked [] seen ≡ some (found, [])
unfolding wait_cand wait_loop initial take_round stops take_events take_event is_exact deadline
    quiet_of free_it str_eqb
seen-wait = refl

wait_cand_accounts_example :
    (used : List Obs) × (seen ≡ used ++ [])
    × (found.deleted ++ held found.best ≡ [] ++ received used)
    × ((found.best ≢ 9) ⊎ (found.best ≡ 0))
wait_cand_accounts_example = wait_cand_accounts asked [] seen [] found seen-AllNew seen-wait

abbrev late : Obs
late = record { queue = []; now = 3000 }

ni_event-exact : is_exact (codes "ni") ni_event ≡ true
unfolding is_exact str_eqb
ni_event-exact = refl

n_event-inexact : is_exact (codes "ni") n_event ≡ false
unfolding is_exact str_eqb
n_event-inexact = refl

initial-best : (initial []).best ≡ 0
unfolding initial
initial-best = refl

-- Two commands cut in the middle of the second, with a pause between.
abbrev cut : In
cut = record {
  buf = [];
  feed = chunk (b'L' ∷ newline ∷ b'C' ∷ []) ∷ pause ∷ chunk (newline ∷ []) ∷ [];
}

read_lines-sent_example :
    (s' : In) × (read_lines 2 10 512 cut ≡ all_read ((b'L' ∷ []) ∷ (b'C' ∷ []) ∷ []) s')
    × (stream s' ≡ [])
read_lines-sent_example =
    read_lines-sent ((b'L' ∷ []) ∷ (b'C' ∷ []) ∷ []) 10 512 cut (omega arith)
      (record {
        fits = omega arith;
        feed = ((λ e. ground (arith, e)), ((λ e. ground (arith, e)), tt));
      })
      (
        (((λ e. omega (arith, e)), tt), omega arith, omega arith),
        ((((λ e. omega (arith, e)), tt), omega arith, omega arith), tt),
      )
      refl
