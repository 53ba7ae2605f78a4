-- ===== src/Events.antt =====
-- The candidate events of harness/jinterop.c: what the engine's thread reports through the JNI
-- setters and `onBatchEvent` (`pending_input_field`, the `newIterator` branch of `F_SetLongField`,
-- `probe_listener`), and the queue that the daemon drains. Each function holds `g_cand_mu`, so a
-- call is one step. An iterator is a number other than 0.

pub mod Bounds
pub mod Batch
use wetype_ime_linux.Base.{
  ℕ, suc, ◌+◌, ◌-◌, List, [], ◌∷◌, ◌++◌, Option, none, some, Bool, true, false, ◌&&◌, ◌==◌, ltb,
  leb, if◌then◌else◌, length, take, str_eqb, codes,
}

-- `CandEvent`.
pub record CandEvent : Type 0 where
  pub it : ℕ
  pub known : Bool
  pub input : List ℕ

-- `CAND_QUEUE`, and the size of each text buffer.
abbrev pub cand_queue : ℕ
cand_queue = 32

abbrev pub text_size : ℕ
text_size = 256

-- The static variables behind `g_cand_mu`, and `g_last_iterator`.
pub record Cand : Type 0 where
  pub callback_count : ℕ
  pub q : List CandEvent
  pub pi_acc : List ℕ
  pub pi_last : List ℕ
  pub pi_have : Bool
  pub pend_it : ℕ
  pub pend_known : Bool
  pub pend_input : List ℕ
  pub last_iterator : ℕ

-- `*p >= 'a' && *p <= 'z'`.
unfoldable pub is_letter : ℕ → Bool
is_letter c = leb b'a' c && leb c b'z'

-- The loop over a match string: its letters are appended while the buffer has room.
unfoldable pub append_letters : List ℕ → List ℕ → List ℕ
append_letters acc [] = acc
append_letters acc (c ∷ cs) =
    let rest = append_letters (if is_letter c then acc ++ c ∷ [] else acc) cs in
    if ltb (length acc + 1) text_size then rest else acc

-- `pending_input_field` at `match`; the text is `none` when the value is no String object.
unfoldable pub add_match : Option (List ℕ) → Cand → Cand
add_match none s = s
add_match (some text) s = record s { pi_acc = append_letters s.pi_acc text }

-- `pending_input_field` at `pendingInputs`.
unfoldable pub end_pending : Cand → Cand
end_pending s = record s { pi_last = s.pi_acc; pi_acc = []; pi_have = true }

-- `pending_input_field`, on the name of the field that the engine sets.
unfoldable pub pending_input_field : List ℕ → Option (List ℕ) → Cand → Cand
pending_input_field name text s =
    if str_eqb name (codes "match")
    then add_match text s
    else if str_eqb name (codes "pendingInputs")
    then end_pending s
    else s

-- `F_SetLongField` at `newIterator`, in daemon mode.
unfoldable pub set_new_iterator : ℕ → Cand → Cand
set_new_iterator v s = if v == 0 then s else record s {
  pi_acc = [];
  pi_have = false;
  pend_it = v;
  pend_known = s.pi_have;
  pend_input = s.pi_last;
  last_iterator = v;
}

-- `memmove` of the queue over its oldest event, when it is full.
unfoldable pub make_room : List CandEvent → List CandEvent
make_room [] = []
make_room (e ∷ es) = if length (e ∷ es) == cand_queue then es else e ∷ es

-- The event that `probe_listener` queues; `snprintf` cuts the text to the buffer.
abbrev pub pending_event : Cand → CandEvent
pending_event s = record {
  it = s.pend_it;
  known = s.pend_known;
  input = take (text_size - 1) s.pend_input;
}

-- `probe_listener` in daemon mode.
unfoldable pub probe_listener : Cand → Cand
probe_listener s =
    let s' = record s { callback_count = suc s.callback_count } in
    if s.pend_it == 0
    then s'
    else record s' { q = make_room s.q ++ pending_event s ∷ []; pend_it = 0 }

-- The daemon takes the whole queue (in `daemon_drop_events` and `daemon_wait_cand`).
unfoldable pub take_queue : Cand → List CandEvent × Cand
take_queue s = (s.q, record s { q = [] })

-- `CallStaticVoidMethod` in daemon mode: `onBatchEvent` announces that a batch is delivered.
unfoldable pub call_static_void : List ℕ → Cand → Cand
call_static_void name s = if str_eqb name (codes "onBatchEvent") then probe_listener s else s

-- What the engine's thread may do, and the daemon's one access to the queue.
pub data Action : Type 0 where
  set_object : List ℕ → Option (List ℕ) → Action
  new_iterator : ℕ → Action
  call_static : List ℕ → Action
  drain : Action

unfoldable pub act : Action → Cand → Cand
act (set_object name text) s = pending_input_field name text s
act (new_iterator v) s = set_new_iterator v s
act (call_static name) s = call_static_void name s
act drain s = (take_queue s).1

-- Any interleaving of the two threads.
unfoldable pub run : List Action → Cand → Cand
run [] s = s
run (a ∷ as') s = run as' (act a s)

abbrev pub start : Cand
start = record {
  callback_count = 0;
  q = [];
  pi_acc = [];
  pi_last = [];
  pi_have = false;
  pend_it = 0;
  pend_known = false;
  pend_input = [];
  last_iterator = 0;
}
