-- ===== src/Addon/Answering.antt =====
-- What the addon does with the engine's lines and with its timers (`candidateHandler`, `drainQueued`,
-- `EngineProc::onReadable`, `onLine`, `onStartTimeout` and the timers' callbacks in
-- fcitx5-wetype/src/wetype.cpp).
use wetype_ime_linux.Base.{
  ℕ, zero, suc, ◌+◌, ◌-◌, ◌*◌, List, [], ◌∷◌, ◌++◌, Option, none, some, Bool, true, false, not,
  ◌&&◌, ◌||◌, ◌==◌, ltb, if◌then◌else◌, codes, length, drop, str_eqb,
}
use wetype_ime_linux.Base.Int.{ℤ, pos, negsuc}
use wetype_ime_linux.Addon.Punctuation.{is_nil, is_blank, is_digit_codepoint, ends_with_digit}
use wetype_ime_linux.Addon.Glossary.{get_delim}
use wetype_ime_linux.Addon.Proc.{on_line, new_proc}
use wetype_ime_linux.Addon.State.{
  Front, QueuedKey, Request, Handler, no_handler, spans_handler, cand_handler, forward, Addon,
  Punct, get_ic, is_ic, update_ui, set_punct, after_digit_is,
}
use wetype_ime_linux.Addon.Sending.{
  reply_ic, is_current, die, stop_engine, ensure_engine, request_candidates, post,
}
use wetype_ime_linux.Addon.Composing.{
  commit_candidate, disarm_pending, cancel_pending, fallback_pending,
}
use wetype_ime_linux.Addon.Keys.{process_key}
use wetype_ime_linux.Daemon.Commands.{starts_with}
use wetype_ime_linux.Command.{split_line}

-- `item.find(':')`: what stands before the first colon, and after it.
unfoldable pub split_colon : List ℕ → Option (List ℕ × List ℕ)
split_colon [] = none
split_colon (c ∷ cs) =
    let rest = split_colon cs in
    if c == b':' then some ([], cs) else elim rest [ none ↦ none | some (l, r) ↦ some (c ∷ l, r) ]

unfoldable pub digits_of : ℕ → List ℕ → ℕ
digits_of n [] = n
digits_of n (c ∷ cs) =
    let more = digits_of (n * 10 + (c - b'0')) cs in if is_digit_codepoint c then more else n

abbrev pub negate : ℕ → ℤ
negate zero = pos 0
negate (suc n) = negsuc n

-- `std::atoi`; a number outside `int` has no meaning there.
unfoldable pub atoi : List ℕ → ℤ
atoi [] = pos 0
atoi (c ∷ cs) =
    let skipped = atoi cs in
    if is_blank c || (c == 11) || (c == 12)
    then skipped
    else if c == b'-'
    then negate (digits_of 0 cs)
    else if c == b'+'
    then pos (digits_of 0 cs)
    else pos (digits_of 0 (c ∷ cs))

-- A field of a `CAND` line: the text, and how many letters it covers.
unfoldable pub parse_item : Bool → List ℕ → Option (List ℕ × ℤ)
parse_item false item = if is_nil item then none else some (item, pos 0)
parse_item true item = elim (split_colon item) [
  | none ↦ none
  | some (before, text) ↦ if is_nil text then none else some (text, atoi item)
]

unfoldable pub parse_items : Bool → List (List ℕ) → List (List ℕ × ℤ)
parse_items spans [] = []
parse_items spans (i ∷ is) =
    let rest = parse_items spans is in elim (parse_item spans i) [ none ↦ rest | some c ↦ c ∷ rest ]

abbrev pub is_cand : List ℕ → Bool
is_cand resp = starts_with (codes "CAND\t") resp

-- The candidates of a reply; none for `EMPTY`.
unfoldable pub parse_cands : Bool → List ℕ → List (List ℕ × ℤ)
parse_cands spans resp =
    if is_cand resp then parse_items spans (get_delim b'\t' (drop 5 resp)) else []

unfoldable pub firsts : List (List ℕ × ℤ) → List (List ℕ)
firsts [] = []
firsts ((t, c) ∷ cs) = t ∷ firsts cs

unfoldable pub seconds : List (List ℕ × ℤ) → List ℤ
seconds [] = []
seconds ((t, c) ∷ cs) = c ∷ seconds cs

-- The loop of `drainQueued`; each round takes a key off the queue.
unfoldable pub drain_keys : ℕ → Front → ℕ → List QueuedKey → Addon → Addon
drain_keys fuel x ic [] s = s
drain_keys zero x ic (k ∷ ks) s = record s { stuck = true }
drain_keys (suc fuel) x ic (k ∷ ks) s =
    let (filtered, s₁) = process_key x ic k (record s { queued = ks }) in
    let s₂ = record s₁ { out = s₁.out ++ forward ic k.raw k.release k.time ∷ [] } in
    let s₃ = if filtered then s₁ else s₂ in
    let rest = drain_keys fuel x ic s₃.queued s₃ in
    if s.pending || not (is_ic (get_ic x s.ic_ref) ic) then s else rest

-- `drainQueued`.
unfoldable pub drain_queued : Front → ℕ → Addon → Addon
drain_queued x ic s =
    let s₁ = drain_keys (length s.queued) x ic s.queued (record s { draining = true }) in
    if s.draining then s else record s₁ { draining = false }

-- A reply that is neither `CAND` nor `EMPTY`: the session is rebuilt once.
unfoldable pub odd_reply : Front → ℕ → Addon → Addon
odd_reply x ic s =
    let s₁ = post x (codes "C") no_handler (record s { recovery_tried = true }) in
    if s.recovery_tried
    then (if s.pending then fallback_pending x ic s else s)
    else request_candidates (post x) s₁.buf s₁

-- The candidates shown, current or as a preview.
unfoldable pub cands_set : Front → ℕ → Bool → List (List ℕ × ℤ) → Addon → Addon
cands_set x ic now cs s = update_ui x ic (record s {
  cands = firsts cs;
  covers = seconds cs;
  current = now;
  window_start = 0;
  selected = 0;
})

-- What the candidates mean for a Space that waits for them.
unfoldable pub settle_pending : Front → ℕ → Addon → Addon
settle_pending x ic s =
    if not (s.current && s.pending)
    then s
    else if is_nil s.cands
    then fallback_pending x ic s
    else (let s₁ = disarm_pending s in drain_queued x ic (commit_candidate x ic s₁.selected s₁))

-- Whether the reply is for an earlier prefix of what is being typed.
unfoldable pub is_preview : Request → List ℕ → Addon → Bool
is_preview r resp s =
    not (is_current r s)
    && not (is_nil r.buf)
    && ltb (length r.buf) (length s.buf)
    && starts_with r.buf s.buf
    && is_cand resp

-- A candidate handler called with a line of the engine.
unfoldable pub cand_reply : Front → Request → List ℕ → Addon → Addon
cand_reply x r resp s = elim (reply_ic x r s) [
  | none ↦ s
  | some ic ↦
      if str_eqb resp (codes "SKIP")
      then s
      else if not (is_current r s) && not (is_preview r resp s)
      then s
      else if not (str_eqb resp (codes "EMPTY")) && not (is_cand resp)
      then odd_reply x ic s
      else settle_pending x ic
          (cands_set x ic (is_current r s) (parse_cands s.spans_enabled resp) s)
]

unfoldable pub call_handler : Front → List ℕ → Handler → Addon → Addon
call_handler x resp no_handler s = s
call_handler x resp spans_handler s = record s { spans_enabled = str_eqb resp (codes "OK") }
call_handler x resp (cand_handler r) s = cand_reply x r resp s

unfoldable pub call_handlers : Front → List ℕ → List Handler → Addon → Addon
call_handlers x resp [] s = s
call_handlers x resp (h ∷ hs) s = call_handlers x resp hs (call_handler x resp h s)

-- `onLine`.
unfoldable pub take_line : Front → List ℕ → Addon → Addon
take_line x l s = let (p, hs) = on_line l s.proc in call_handlers x l hs (record s { proc = p })

-- The loop of `onReadable` over the lines of the buffer, which a handler may clear.
unfoldable pub take_lines : ℕ → Front → Addon → Addon
take_lines zero x s = record s { stuck = true }
take_lines (suc fuel) x s = elim (split_line s.proc.rbuf) [
  | none ↦ s
  | some (l, rest) ↦
      take_lines fuel x (take_line x l (record s { proc = record s.proc { rbuf = rest } }))
]

-- `onReadable`, with the bytes that `read` gave, none at the end of the file or on an error.
unfoldable pub on_readable : Front → List ℕ → Addon → Addon
on_readable x chunk s =
    let s₁ = record s { proc = record s.proc { rbuf = s.proc.rbuf ++ chunk } } in
    if is_nil chunk then die (post x) x s else take_lines (suc (length s₁.proc.rbuf)) x s₁

-- `onStartTimeout`.
unfoldable pub on_start_timeout : Front → Addon → Addon
on_start_timeout x s = die (post x) x s

-- The callback of `restartSource_`: the buffer is sent again to the new engine.
unfoldable pub on_restart : Front → Addon → Addon
on_restart x s =
    let s₁ = ensure_engine (post x) (record s { restart_armed = false }) in
    if s.proc.alive
    then record s { restart_armed = false }
    else request_candidates (post x) s₁.buf s₁

-- The callback of `pendingTimer_`.
unfoldable pub on_pending_timeout : Front → Addon → Addon
on_pending_timeout x s = elim s.timer [
  | none ↦ s
  | some (ic, epoch) ↦
      if x.live ic && is_ic (get_ic x s.ic_ref) ic && (epoch == s.epoch) && s.pending
      then fallback_pending x ic s
      else s
]

-- The watcher of the surrounding text: whether it is valid, the bytes before the cursor, none when
-- the cursor is at the start.
unfoldable pub on_surrounding : Front → ℕ → Bool → List ℕ → Addon → Addon
on_surrounding x ic valid before s =
    set_punct ic (after_digit_is (valid && ends_with_digit x.valid before)) s

-- `~WeTypeEngine`.
unfoldable pub shut_down : Front → Addon → Addon
shut_down x s = stop_engine (post x) x (record (cancel_pending s) { restart_armed = false })

abbrev pub fresh_punct : Punct
fresh_punct = record { after_digit = false; double_opens = true; single_opens = true }

-- The members as they are declared; the argument is what the system calls to come give.
unfoldable pub new_addon : List Bool → Addon
new_addon calls = record {
  proc = new_proc;
  buf = [];
  cands = [];
  covers = [];
  spans_enabled = false;
  current = false;
  window_start = 0;
  selected = 0;
  rendered_page = 0;
  recovery_tried = false;
  revision = 0;
  ic_ref = none;
  pending = false;
  queued = [];
  timer = none;
  draining = false;
  epoch = 0;
  restart_armed = false;
  puncts = λ i. fresh_punct;
  out = [];
  panel = none;
  calls = calls;
  stuck = false;
}

-- The constructor starts the engine at once.
unfoldable pub start_addon : Front → List Bool → Addon
start_addon x calls = ensure_engine (post x) (new_addon calls)
