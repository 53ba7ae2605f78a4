-- ===== src/Wait.antt =====
-- `daemon_wait_cand`, `daemon_free_it` and `daemon_drop_events` of harness/jinterop.c.
-- The engine and the clock are the environment: an `Obs` is what one round of the wait loop finds,
-- the events queued when it holds the mutex and what `mono_ms()` then reads. A list of them is the
-- schedule; where it ends the daemon still waits (`none`). Iterators handed to
-- `delete_candidate_iterator` are logged in order.
pub mod Account
pub mod Outcome
use wetype_ime_linux.Base.{
  ℕ, ◌+◌, List, [], ◌∷◌, ◌++◌, Option, none, some, Bool, true, false, not, ◌&&◌, ◌||◌, ◌==◌, ltb,
  leb, if◌then◌else◌, str_eqb,
}
use wetype_ime_linux.Events.{CandEvent}

pub record Obs : Type 0 where
  pub queue : List CandEvent
  pub now : ℕ

-- The locals of `daemon_wait_cand`, and the log of deleted iterators.
pub record Wait : Type 0 where
  pub best : ℕ
  pub last_event : ℕ
  pub exact_possible : Bool
  pub exact : Bool
  pub deleted : List ℕ

-- `daemon_free_it`, with the current iterator `cur`: neither 0 nor the current one is deleted.
unfoldable pub free_it : ℕ → ℕ → List ℕ → List ℕ
free_it cur it log = if (it == 0) || (it == cur) then log else log ++ it ∷ []

-- `daemon_drop_events` on the queue taken.
unfoldable pub drop_events : ℕ → List CandEvent → List ℕ → List ℕ
drop_events cur [] log = log
drop_events cur (e ∷ es) log = drop_events cur es (free_it cur e.it log)

-- `!*expected`.
abbrev pub is_empty : List ℕ → Bool
is_empty [] = true
is_empty (x ∷ xs) = false

-- `evs[i].known && !strcmp(evs[i].input, expected)`.
unfoldable pub is_exact : List ℕ → CandEvent → Bool
is_exact expected e = e.known && str_eqb e.input expected

-- The body of the loop over the events taken.
unfoldable pub take_event : List ℕ → ℕ → CandEvent → Wait → Wait
take_event expected cur e w = record {
  best = e.it;
  last_event = w.last_event;
  exact_possible =
      if not (is_empty expected) && e.known && not (is_exact expected e)
      then false
      else w.exact_possible;
  exact = is_exact expected e;
  deleted = if w.best == 0 then w.deleted else free_it cur w.best w.deleted;
}

unfoldable pub take_events : List ℕ → ℕ → List CandEvent → Wait → Wait
take_events expected cur [] w = w
take_events expected cur (e ∷ es) w = take_events expected cur es (take_event expected cur e w)

-- What the loop is given: `expected`, `timeout_ms`, `quiet_ms` and the clock at its start.
pub record Params : Type 0 where
  pub expected : List ℕ
  pub timeout_ms : ℕ
  pub quiet_ms : ℕ
  pub t0 : ℕ
  pub cur : ℕ

-- `quiet_ms`, which is 300 when the input is unknown.
unfoldable pub quiet_of : Params → ℕ
quiet_of a = if is_empty a.expected then 300 else a.quiet_ms

-- `until`.
unfoldable pub deadline : Params → Wait → ℕ
deadline a w =
    if not (w.best == 0)
      && (is_empty a.expected || not w.exact_possible)
      && ltb (w.last_event + quiet_of a) (a.t0 + a.timeout_ms)
    then w.last_event + quiet_of a
    else a.t0 + a.timeout_ms

abbrev pub no_events : List CandEvent → Bool
no_events [] = true
no_events (e ∷ es) = false

-- What a round does with the events it finds, if it finds any.
unfoldable pub take_round : Params → Obs → Wait → Wait
take_round a o w =
    if no_events o.queue
    then w
    else record (take_events a.expected a.cur o.queue w) { last_event = o.now }

-- Whether the loop ends in this round: with an exact match, or by the deadline when no event came.
unfoldable pub stops : Params → Obs → Wait → Bool
stops a o w = if no_events o.queue then leb (deadline a w) o.now else (take_round a o w).exact

-- The rounds of `for (;;)`, with the observations that are left.
unfoldable pub wait_loop : Params → List Obs → Wait → Option (Wait × List Obs)
wait_loop a [] w = none
wait_loop a (o ∷ os) w =
    let w' = take_round a o w in
    let again = wait_loop a os w' in if stops a o w then some (w', os) else again

unfoldable pub initial : List ℕ → Wait
initial log = record {
  best = 0;
  last_event = 0;
  exact_possible = true;
  exact = false;
  deleted = log;
}

-- `daemon_wait_cand`: the iterator found (0 for none), whether it is exact, and the log.
unfoldable pub wait_cand : Params → List ℕ → List Obs → Option (Wait × List Obs)
wait_cand a log os = wait_loop a os (initial log)
