-- ===== src/Events/Bounds.antt =====
-- The buffers of the candidate events (harness/jinterop.c) never overflow.
use wetype_ime_linux.Base.{
  ℕ, ◌-◌, ◌≤◌, ◌<◌, List, [], ◌∷◌, ◌++◌, none, some, length, take, All, All-append, length-append,
  length-take, arith, Bool-cases, inl, inr, ◌==◌,
}
use wetype_ime_linux.Events.{
  Cand, CandEvent, Action, set_object, new_iterator, call_static, drain, act, run, append_letters,
  add_match, end_pending, pending_input_field, set_new_iterator, make_room, probe_listener,
  call_static_void, take_queue, text_size, cand_queue, pending_event,
}

-- Every buffer holds its text with the closing NUL, and the queue fits its array.
pub record IsBounded (s : Cand) : Type 0 where
  pub queue : length s.q ≤ cand_queue
  pub acc : length s.pi_acc < text_size
  pub last : length s.pi_last < text_size
  pub pend : length s.pend_input < text_size
  pub texts : All (λ (e : CandEvent). length e.input < text_size) s.q

append_letters_bound :
    (acc cs : List ℕ) → length acc < text_size → length (append_letters acc cs) < text_size
unfolding append_letters
append_letters_bound acc [] h = h
append_letters_bound acc (c ∷ cs) h = ground (
  arith,
  append_letters_bound acc cs h,
  append_letters_bound (acc ++ c ∷ []) cs,
  length-append acc (c ∷ []),
)

make_room_lem :
    (q : List CandEvent)
    → length q ≤ cand_queue
    → All (λ (e : CandEvent). length e.input < text_size) q
    → (length (make_room q) < cand_queue)
      × All (λ (e : CandEvent). length e.input < text_size) (make_room q)
unfolding make_room
make_room_lem [] h a = (omega arith, tt)
make_room_lem (e ∷ es) h a = (ground arith, ground arith)

probe-IsBounded : {s : Cand} → IsBounded s → IsBounded (probe_listener s)
unfolding probe_listener
probe-IsBounded {s} b =
    let (room, texts) = make_room_lem s.q b.queue b.texts in
    let cut : length (take (text_size - 1) s.pend_input) < text_size =
      omega (arith, length-take (text_size - 1) s.pend_input) in
    let all = All-append _ (make_room s.q) (pending_event s ∷ []) texts (cut, tt) in
    let size = length-append (make_room s.q) (pending_event s ∷ []) in
    elim (Bool-cases (s.pend_it == 0)) [
      | inl idle ↦
          rw idle
            (record { queue = b.queue; acc = b.acc; last = b.last; pend = b.pend; texts = b.texts })
      | inr pending ↦ rw pending (record {
        queue = omega (arith, room, size);
        acc = b.acc;
        last = b.last;
        pend = b.pend;
        texts = all;
      })
    ]

act-IsBounded : (a : Action) (s : Cand) → IsBounded s → IsBounded (act a s)
unfolding act pending_input_field add_match end_pending set_new_iterator call_static_void take_queue
act-IsBounded (set_object name none) s b = ground arith
act-IsBounded (set_object name (some text)) s b =
    ground (arith, append_letters_bound s.pi_acc text b.acc)
act-IsBounded (new_iterator v) s b = ground arith
act-IsBounded (call_static name) s b = ground (arith, probe-IsBounded b)
act-IsBounded drain s b = ground arith

-- Whatever the engine's thread and the daemon do, and in whatever order, no text buffer overflows
-- and the event queue never exceeds its 32 places.
pub run-IsBounded : (as' : List Action) (s : Cand) → IsBounded s → IsBounded (run as' s)
unfolding run
run-IsBounded [] s b = b
run-IsBounded (a ∷ as') s b = run-IsBounded as' (act a s) (act-IsBounded a s b)
