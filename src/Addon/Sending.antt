-- ===== src/Addon/Sending.antt =====
-- How the addon writes to the engine, and what happens when that fails (`EngineProc::send`, `die` and
-- `failPendingHandlers`, and `scheduleRestart`, `ensureEngine`, `requestCandidates` and the failed
-- reply of `candidateHandler` in fcitx5-wetype/src/wetype.cpp).
-- A failed write calls handlers, which may write again. The functions here take the `send` they use
-- as an argument, and `send` passes itself on, on fuel; `post` fixes the fuel.
use wetype_ime_linux.Base.{
  ℕ, zero, suc, List, [], ◌∷◌, ◌++◌, Option, none, some, Bool, true, false, not, ◌&&◌, ◌||◌, ◌==◌,
  if◌then◌else◌, codes, str_eqb,
}
use wetype_ime_linux.Addon.Punctuation.{is_nil}
use wetype_ime_linux.Addon.Proc.{start, stop, send_line}
use wetype_ime_linux.Addon.State.{
  Front, Request, Handler, no_handler, spans_handler, cand_handler, Addon, get_ic, is_ic, update_ui,
}

-- The outcome of the next system call.
abbrev pub outcome : List Bool → Bool
outcome [] = true
outcome (b ∷ bs) = b

abbrev pub after_call : List Bool → List Bool
after_call [] = []
after_call (b ∷ bs) = bs

-- What a candidate handler made now remembers.
unfoldable pub request_of : Addon → Request
request_of s = record { ref = s.ic_ref; epoch = s.epoch; buf = s.buf; revision = s.revision }

-- The context that a reply is for, if the request is not outdated by a change of context or by a
-- reset. References name the same context when both are alive.
unfoldable pub reply_ic : Front → Request → Addon → Option ℕ
reply_ic x r s = elim (get_ic x r.ref) [
  | none ↦ none
  | some i ↦ if is_ic (get_ic x s.ic_ref) i && (r.epoch == s.epoch) then some i else none
]

-- Whether the request is for the buffer as it is now.
unfoldable pub is_current : Request → Addon → Bool
is_current r s = (r.revision == s.revision) && str_eqb r.buf s.buf

abbrev pub Send : Type 0
Send = List ℕ → Handler → Addon → Addon

-- `scheduleRestart`.
unfoldable pub schedule_restart : Addon → Addon
schedule_restart s =
    if s.restart_armed || s.proc.gave_up then s else record s { restart_armed = true }

-- `EngineProc::start` on what the next call gives.
unfoldable pub start_engine : Addon → Bool × Addon
start_engine s =
    let (ok, p) = start (outcome s.calls) s.proc in
    (ok, record s { proc = p; calls = after_call s.calls })

-- `ensureEngine`.
unfoldable pub ensure_engine : Send → Addon → Addon
ensure_engine snd s =
    let (ok, s₁) = start_engine (record s { spans_enabled = false }) in
    if s.proc.alive || s.proc.gave_up
    then s
    else if ok
    then snd (codes "OPT spans") spans_handler s₁
    else s₁

-- `requestCandidates`.
unfoldable pub request_candidates : Send → List ℕ → Addon → Addon
request_candidates snd keys s =
    let s₁ = ensure_engine snd s in
    if is_nil s.buf || is_nil keys
    then s
    else snd (codes "B " ++ keys) (cand_handler (request_of s₁)) s₁

-- The first reply that is lost for a buffer restarts the engine and replays it.
unfoldable pub recover : Send → Addon → Addon
recover snd s =
    if not (is_nil s.buf) && not s.recovery_tried
    then (let s₁ = ensure_engine snd (record s { recovery_tried = true }) in
        request_candidates snd s₁.buf s₁)
    else s

-- A handler called with the empty line.
unfoldable pub fail_handler : Send → Front → Handler → Addon → Addon
fail_handler snd x no_handler s = s
fail_handler snd x spans_handler s = record s { spans_enabled = false }
fail_handler snd x (cand_handler r) s = elim (reply_ic x r s) [
  | none ↦ s
  | some ic ↦ if is_current r s then recover snd (update_ui x ic s) else s
]

unfoldable pub fail_handlers : Send → Front → List Handler → Addon → Addon
fail_handlers snd x [] s = s
fail_handlers snd x (h ∷ hs) s = fail_handlers snd x hs (fail_handler snd x h s)

-- `stop`.
unfoldable pub stop_engine : Send → Front → Addon → Addon
stop_engine snd x s = let (p, hs) = stop s.proc in fail_handlers snd x hs (record s { proc = p })

-- `die`.
unfoldable pub die : Send → Front → Addon → Addon
die snd x s = schedule_restart (stop_engine snd x s)

-- `send`, given the `send` that the handlers called from it use.
unfoldable pub send_with : Send → Front → Send
send_with snd x l h s =
    let s₁ = record s { calls = after_call s.calls } in
    if not (s.proc.alive && s.proc.in_open)
    then fail_handler snd x h s
    else if outcome s.calls
    then record s₁ { proc = (send_line true l h s.proc).0 }
    else fail_handler snd x h (die snd x s₁)

unfoldable pub send : ℕ → Front → Send
send zero x l h s = record s { stuck = true }
send (suc fuel) x l h s = send_with (send fuel x) x l h s

-- Two nested sends are enough (Addon/Recovery).
unfoldable pub post : Front → Send
post x = send 2 x
