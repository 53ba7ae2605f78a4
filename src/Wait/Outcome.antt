-- ===== src/Wait/Outcome.antt =====
-- When `daemon_wait_cand` of harness/jinterop.c returns, and with what.
use wetype_ime_linux.Base.{
  ℕ, ◌+◌, ◌≤◌, ◌≡◌, ◌≢◌, inl, inr, List, [], ◌∷◌, ◌++◌, some, true, false, ltb, Bool-cases, arith,
}
use wetype_ime_linux.Events.{CandEvent}
use wetype_ime_linux.Wait.{
  Obs, Wait, Params, is_exact, free_it, take_event, take_events, take_round, stops, deadline,
  quiet_of, wait_loop,
}

-- What the wait holds after a queue is what its last event says.
record Last (x : List ℕ) (q : List CandEvent) (w : Wait) : Type 0 where
  init : List CandEvent
  event : CandEvent
  split : q ≡ init ++ event ∷ []
  best : w.best ≡ event.it
  exact : w.exact ≡ is_exact x event

-- A match: the last event of the queue is known to be for the input expected, and its iterator is held.
abbrev pub IsMatch : List ℕ → List CandEvent → Wait → Type 0
IsMatch x q w =
    (init : List CandEvent) × (e : CandEvent) × (q ≡ init ++ e ∷ [])
    × (e.known ≡ true)
    × (e.input ≡ x)
    × (w.best ≡ e.it)

-- Why the loop ended in round `o`: an exact match, or no event at or past the deadline.
data Ended (a : Params) (o : Obs) (w : Wait) : Type 0 where
  matched : w.exact ≡ true → IsMatch a.expected o.queue w → Ended a o w
  waited : o.queue ≡ [] → deadline a w ≤ o.now → Ended a o w

record Outcome (a : Params) (os rest : List Obs) (w : Wait) : Type 0 where
  before : List Obs
  last : Obs
  split : os ≡ before ++ last ∷ rest
  ended : Ended a last w

deadline-le-timeout : (a : Params) (w : Wait) → deadline a w ≤ a.t0 + a.timeout_ms
unfolding deadline
deadline-le-timeout a w =
    elim (Bool-cases (ltb (w.last_event + quiet_of a) (a.t0 + a.timeout_ms))) [
      | inl lt ↦ ground arith
      | inr ge ↦ ground arith
    ]

stops_late :
    (a : Params) (o : Obs) (w : Wait) → o.queue ≡ [] → deadline a w ≤ o.now → stops a o w ≡ true
unfolding stops
stops_late a o w q late = rw q (ground arith)

-- The wait is over at the latest in the first round that finds no event and is past the timeout.
pub wait_loop_ends :
    (a : Params) (before after : List Obs) (o : Obs) (w : Wait)
    → o.queue ≡ []
    → a.t0 + a.timeout_ms ≤ o.now
    → (r : Wait × List Obs) × (wait_loop a (before ++ o ∷ after) w ≡ some r)
unfolding wait_loop
wait_loop_ends a [] after o w q late =
    let stop : stops a o w ≡ true = stops_late a o w q (omega (arith, deadline-le-timeout a w)) in
    ((take_round a o w, after), rw stop)
wait_loop_ends a (x ∷ before) after o w q late = elim (Bool-cases (stops a x w)) [
  | inl stop ↦ ((take_round a x w, before ++ o ∷ after), rw stop)
  | inr go_on ↦ rw go_on (wait_loop_ends a before after o (take_round a x w) q late)
]

-- An exact match that is taken together with a later event that does not match is given up: its
-- iterator is deleted and the wait goes on without it.
pub exact_superseded :
    (a : Params) (e₁ e₂ : CandEvent) (w : Wait)
    → is_exact a.expected e₁ ≡ true
    → is_exact a.expected e₂ ≡ false
    → e₁.it ≢ 0
    → e₁.it ≢ a.cur
    → w.best ≡ 0
    → let w' = take_events a.expected a.cur (e₁ ∷ e₂ ∷ []) w in
      (w'.exact ≡ false) × (w'.best ≡ e₂.it) × (w'.deleted ≡ w.deleted ++ e₁.it ∷ [])
unfolding take_events take_event free_it
exact_superseded a e₁ e₂ w yes₁ no₂ nz nc z = ground arith
