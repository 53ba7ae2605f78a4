-- ===== src/Addon/Recovery.antt =====
-- What the sends of the addon leave alone, and that their nesting ends.
use wetype_ime_linux.Base.{
  ℕ, zero, suc, List, [], ◌∷◌, Option, Bool, true, false, not, ◌&&◌, ◌||◌, ◌≡◌, refl, ◌∙◌,
  Bool-cases, Option-cases, inl, inr, codes, if◌then◌else◌,
}
use wetype_ime_linux.Base.Int.{ℤ}
use wetype_ime_linux.Addon.Punctuation.{is_nil}
use wetype_ime_linux.Addon.Proc.{Proc, stop}
use wetype_ime_linux.Addon.State.{
  Front, QueuedKey, Punct, Output, Handler, no_handler, spans_handler, cand_handler, Addon,
  update_ui, normalize_page,
}
use wetype_ime_linux.Addon.Sending.{
  Send, outcome, after_call, reply_ic, is_current, schedule_restart, start_engine, ensure_engine,
  request_candidates, recover, fail_handler, fail_handlers, stop_engine, die, send_with, send, post,
}

-- The text, the candidates, the keys that wait and what was handed out.
pub record Typing : Type 0 where
  pub buf : List ℕ
  pub cands : List (List ℕ)
  pub covers : List ℤ
  pub current : Bool
  pub pending : Bool
  pub queued : List QueuedKey
  pub revision : ℕ
  pub epoch : ℕ
  pub ic_ref : Option ℕ
  pub timer : Option (ℕ × ℕ)
  pub draining : Bool
  pub puncts : ℕ → Punct
  pub out : List Output

unfoldable pub typing : Addon → Typing
typing s = record {
  buf = s.buf;
  cands = s.cands;
  covers = s.covers;
  current = s.current;
  pending = s.pending;
  queued = s.queued;
  revision = s.revision;
  epoch = s.epoch;
  ic_ref = s.ic_ref;
  timer = s.timer;
  draining = s.draining;
  puncts = s.puncts;
  out = s.out;
}

pub update_ui-typing : (x : Front) (ic : ℕ) (s : Addon) → typing (update_ui x ic s) ≡ typing s
unfolding typing update_ui normalize_page
update_ui-typing x ic s = refl

-- A `send` that leaves all that alone.
abbrev pub IsFramed : Send → Type 0
IsFramed snd = (l : List ℕ) (h : Handler) (s : Addon) → typing (snd l h s) ≡ typing s

-- Both branches of a test.
pub if_typing :
    (b : Bool) (s t u : Addon)
    → typing t ≡ typing s
    → typing u ≡ typing s
    → typing (if b then t else u) ≡ typing s
if_typing true s t u a b = a
if_typing false s t u a b = b

start_engine-typing : (s : Addon) → typing (start_engine s).1 ≡ typing s
unfolding typing start_engine
start_engine-typing s = refl

spans_off : (s : Addon) → typing (record s { spans_enabled = false }) ≡ typing s
unfolding typing
spans_off s = refl

pub tried_set : (s : Addon) → typing (record s { recovery_tried = true }) ≡ typing s
unfolding typing
tried_set s = refl

called_once : (s : Addon) → typing (record s { calls = after_call s.calls }) ≡ typing s
unfolding typing
called_once s = refl

pub with_proc : (s : Addon) (p : Proc Handler) → typing (record s { proc = p }) ≡ typing s
unfolding typing
with_proc s p = refl

pub ensure_engine-typing :
    (snd : Send) → IsFramed snd → (s : Addon) → typing (ensure_engine snd s) ≡ typing s
unfolding ensure_engine
ensure_engine-typing snd f s =
    let s₀ : Addon = record s { spans_enabled = false } in
    let started : typing (start_engine s₀).1 ≡ typing s = start_engine-typing s₀ ∙ spans_off s in
    if_typing (s.proc.alive || s.proc.gave_up) _ _ _ refl (
      if_typing (start_engine s₀).0 _ _ _
        (f (codes "OPT spans") spans_handler (start_engine s₀).1 ∙ started) started)

pub request_candidates-typing :
    (snd : Send)
    → IsFramed snd
    → (ks : List ℕ) (s : Addon) → typing (request_candidates snd ks s) ≡ typing s
unfolding request_candidates
request_candidates-typing snd f ks s = elim (Bool-cases (is_nil s.buf || is_nil ks)) [
  | inl k ↦ rw k refl
  | inr d ↦ rw d (f _ _ (ensure_engine snd s) ∙ ensure_engine-typing snd f s)
]

recover-typing : (snd : Send) → IsFramed snd → (s : Addon) → typing (recover snd s) ≡ typing s
unfolding recover typing
recover-typing snd f s =
    let s₀ : Addon = record s { recovery_tried = true } in
    elim (Bool-cases (not (is_nil s.buf) && not s.recovery_tried)) [
      | inr k ↦ rw k refl
      | inl d ↦
          rw d (
            request_candidates-typing snd f _ (ensure_engine snd s₀)
            ∙ ensure_engine-typing snd f s₀)
    ]

fail_handler-typing :
    (snd : Send)
    → IsFramed snd
    → (x : Front) (h : Handler) (s : Addon) → typing (fail_handler snd x h s) ≡ typing s
unfolding fail_handler
fail_handler-typing snd f x no_handler s = refl
fail_handler-typing snd f x spans_handler s = spans_off s
fail_handler-typing snd f x (cand_handler r) s = elim (Option-cases (reply_ic x r s)) [
  | inl e ↦ rw (fail_handler, e) refl
  | inr (ic, e) ↦ elim (Bool-cases (is_current r s)) [
    | inl c ↦
        rw (fail_handler, e, c) (recover-typing snd f (update_ui x ic s) ∙ update_ui-typing x ic s)
    | inr c ↦ rw (fail_handler, e, c) refl
  ]
]

fail_handlers-typing :
    (snd : Send)
    → IsFramed snd
    → (x : Front) (hs : List Handler) (s : Addon) → typing (fail_handlers snd x hs s) ≡ typing s
unfolding fail_handlers
fail_handlers-typing snd f x [] s = refl
fail_handlers-typing snd f x (h ∷ hs) s =
    fail_handlers-typing snd f x hs (fail_handler snd x h s) ∙ fail_handler-typing snd f x h s

schedule_restart-typing : (s : Addon) → typing (schedule_restart s) ≡ typing s
unfolding schedule_restart typing
schedule_restart-typing s = elim (Bool-cases (s.restart_armed || s.proc.gave_up)) [
  | inl k ↦ rw k refl
  | inr d ↦ rw d refl
]

pub stop_engine-typing :
    (snd : Send) → IsFramed snd → (x : Front) (s : Addon) → typing (stop_engine snd x s) ≡ typing s
unfolding stop_engine stop
stop_engine-typing snd f x s =
    fail_handlers-typing snd f x s.proc.pending (record s { proc = (stop s.proc).0 })
    ∙ with_proc s (stop s.proc).0

pub die-typing :
    (snd : Send) → IsFramed snd → (x : Front) (s : Addon) → typing (die snd x s) ≡ typing s
unfolding die
die-typing snd f x s = schedule_restart-typing (stop_engine snd x s) ∙ stop_engine-typing snd f x s

send_with-typing : (snd : Send) → IsFramed snd → (x : Front) → IsFramed (send_with snd x)
unfolding send_with
send_with-typing snd f x l h s =
    let s₁ : Addon = record s { calls = after_call s.calls } in
    elim (Bool-cases (s.proc.alive && s.proc.in_open)) [
      | inr k ↦ rw k (fail_handler-typing snd f x h s)
      | inl d ↦ elim (Bool-cases (outcome s.calls)) [
        | inl w ↦ rw (d, w) (with_proc s₁ _ ∙ called_once s)
        | inr w ↦
            rw (d, w)
              (fail_handler-typing snd f x h (die snd x s₁) ∙ die-typing snd f x s₁ ∙ called_once s)
      ]
    ]

stuck_set : (s : Addon) → typing (record s { stuck = true }) ≡ typing s
unfolding typing
stuck_set s = refl

send-typing : (fuel : ℕ) (x : Front) → IsFramed (send fuel x)
unfolding send
send-typing zero x l h s = stuck_set s
send-typing (suc fuel) x l h s = send_with-typing (send fuel x) (send-typing fuel x) x l h s

-- Whatever a `send` sets off, the text being composed, its candidates and the keys that wait stay as
-- they are, and nothing is handed to the application.
pub post-typing : (x : Front) → IsFramed (post x)
unfolding post
post-typing x l h s = send-typing 2 x l h s
