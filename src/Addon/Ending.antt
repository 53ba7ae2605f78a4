-- ===== src/Addon/Ending.antt =====
-- That the nested sends of the addon end: the fuel of `post` never runs out.
use wetype_ime_linux.Base.{
  ℕ, suc, List, [], ◌∷◌, Bool, true, false, not, ◌&&◌, ◌||◌, ◌≡◌, refl, Option-cases, inl, inr,
  arith, codes, if-both,
}
use wetype_ime_linux.Addon.Punctuation.{is_nil}
use wetype_ime_linux.Addon.Proc.{stop}
use wetype_ime_linux.Addon.State.{
  Front, Handler, no_handler, spans_handler, cand_handler, Addon, update_ui, normalize_page,
}
use wetype_ime_linux.Addon.Sending.{
  Send, outcome, after_call, reply_ic, is_current, schedule_restart, start_engine, ensure_engine,
  request_candidates, recover, fail_handler, fail_handlers, stop_engine, die, send_with, send, post,
}

-- A predicate of the mark of fuel and of whether the recovery has been tried.
abbrev pub Mark : Type 1
Mark = Bool → Bool → Type 0

unfoldable pub Marked : Mark → Addon → Type 0
Marked P s = P s.stuck s.recovery_tried

-- A `send` that keeps it.
abbrev pub Keeps : Mark → Send → Type 0
Keeps P snd = (l : List ℕ) (h : Handler) (s : Addon) → Marked P s → Marked P (snd l h s)

ensure_engine-Keeps :
    (P : Mark) (snd : Send)
    → Keeps P snd
    → (s : Addon) → Marked P s
    → Marked P (ensure_engine snd s)
unfolding ensure_engine start_engine Marked
ensure_engine-Keeps P snd k s p =
    let s₁ = (start_engine (record s { spans_enabled = false })).1 in
    if-both (Marked P) (s.proc.alive || s.proc.gave_up) _ _ p (
      if-both (Marked P) (start_engine (record s { spans_enabled = false })).0 _ _
        (k (codes "OPT spans") spans_handler s₁ p) p)

request_candidates-Keeps :
    (P : Mark) (snd : Send)
    → Keeps P snd
    → (ks : List ℕ) (s : Addon) → Marked P s
    → Marked P (request_candidates snd ks s)
unfolding request_candidates
request_candidates-Keeps P snd k ks s p =
    if-both (Marked P) (is_nil s.buf || is_nil ks) _ _ p (k _ _ _ (ensure_engine-Keeps P snd k s p))

update_ui-Marked :
    (P : Mark) (x : Front) (ic : ℕ) (s : Addon) → Marked P s → Marked P (update_ui x ic s)
unfolding update_ui normalize_page Marked
update_ui-Marked P x ic s p = p

-- What keeps both marks of a recovery keeps it over a failed handler.
module _ (P : Mark) (snd : Send) (x : Front)
    (rec : (s : Addon) → Marked P s → Marked P (recover snd s))
    (spans : (s : Addon) → Marked P s → Marked P (record s { spans_enabled = false })) where
  fail_handler-Marked : (h : Handler) (s : Addon) → Marked P s → Marked P (fail_handler snd x h s)
  unfolding fail_handler
  fail_handler-Marked no_handler s p = p
  fail_handler-Marked spans_handler s p = spans s p
  fail_handler-Marked (cand_handler r) s p = elim (Option-cases (reply_ic x r s)) [
    | inl e ↦ rw (fail_handler, e) p
    | inr (ic, e) ↦
        rw (fail_handler, e)
          (if-both (Marked P) (is_current r s) _ _
            (rec (update_ui x ic s) (update_ui-Marked P x ic s p)) p)
  ]

  fail_handlers-Marked :
      (hs : List Handler) (s : Addon) → Marked P s → Marked P (fail_handlers snd x hs s)
  unfolding fail_handlers
  fail_handlers-Marked [] s p = p
  fail_handlers-Marked (h ∷ hs) s p =
      fail_handlers-Marked hs (fail_handler snd x h s) (fail_handler-Marked h s p)

  stop_engine-Marked : (s : Addon) → Marked P s → Marked P (stop_engine snd x s)
  unfolding stop_engine Marked
  stop_engine-Marked s p =
      fail_handlers-Marked (stop s.proc).1 (record s { proc = (stop s.proc).0 }) p

  restart_Marked : (s : Addon) → Marked P s → Marked P (schedule_restart s)
  unfolding schedule_restart Marked
  restart_Marked s p = if-both (Marked P) (s.restart_armed || s.proc.gave_up) _ _ p p

  die-Marked : (s : Addon) → Marked P s → Marked P (die snd x s)
  unfolding die
  die-Marked s p = restart_Marked (stop_engine snd x s) (stop_engine-Marked s p)

  send_with-Marked : Keeps P (send_with snd x)
  unfolding send_with Marked
  send_with-Marked l h s p =
      let s₁ : Addon = record s { calls = after_call s.calls } in
      if-both (Marked P) (not (s.proc.alive && s.proc.in_open)) _ _ (fail_handler-Marked h s p) (
        if-both (Marked P) (outcome s.calls) _ _ p
          (fail_handler-Marked h (die snd x s₁) (die-Marked s₁ p)))

-- The mark is `b`, and the recovery has been tried.
abbrev pub Calm : Bool → Mark
Calm b m r = (m ≡ b) × (r ≡ true)

abbrev pub Steady : Bool → Mark
Steady b m r = m ≡ b

and_not : (a b : Bool) → b ≡ true → (a && not b) ≡ false
and_not a b h = ground arith

recover_idle : (snd : Send) (s : Addon) → s.recovery_tried ≡ true → recover snd s ≡ s
unfolding recover
recover_idle snd s h = rw (and_not (not (is_nil s.buf)) s.recovery_tried h) refl

recover-Calm :
    (b : Bool) (snd : Send) (s : Addon) → Marked (Calm b) s → Marked (Calm b) (recover snd s)
unfolding Marked
recover-Calm b snd s p = rw (recover_idle snd s p.1) p

spans_keep : (P : Mark) (s : Addon) → Marked P s → Marked P (record s { spans_enabled = false })
unfolding Marked
spans_keep P s p = p

-- Once the recovery has been tried, no handler writes again.
send-Calm : (b : Bool) (fuel : ℕ) (x : Front) → Keeps (Calm b) (send (suc fuel) x)
unfolding send
send-Calm b fuel x l h s p =
    send_with-Marked (Calm b) (send fuel x) x (recover-Calm b (send fuel x)) (spans_keep (Calm b)) l
      h s p

mark_of : (b : Bool) (s : Addon) → Marked (Calm b) s → Marked (Steady b) s
unfolding Marked
mark_of b s p = p.0

recover-Steady :
    (b : Bool) (fuel : ℕ) (x : Front) (s : Addon)
    → Marked (Steady b) s
    → Marked (Steady b) (recover (send (suc fuel) x) s)
unfolding recover Marked
recover-Steady b fuel x s p =
    let snd = send (suc fuel) x in
    let s₁ = ensure_engine snd (record s { recovery_tried = true }) in
    let calm : Marked (Calm b) s₁ =
      ensure_engine-Keeps (Calm b) snd (send-Calm b fuel x) (record s { recovery_tried = true })
        (p, refl) in
    if-both (Marked (Steady b)) (not (is_nil s.buf) && not s.recovery_tried) _ _
      (mark_of b (request_candidates snd s₁.buf s₁)
        (request_candidates-Keeps (Calm b) snd (send-Calm b fuel x) s₁.buf s₁ calm))
      p

send-Steady : (b : Bool) (fuel : ℕ) (x : Front) → Keeps (Steady b) (send (suc (suc fuel)) x)
unfolding send
send-Steady b fuel x =
    send_with-Marked (Steady b) (send (suc fuel) x) x (recover-Steady b fuel x)
      (spans_keep (Steady b))

pub post-stuck : (x : Front) (l : List ℕ) (h : Handler) (s : Addon) → (post x l h s).stuck ≡ s.stuck
unfolding post Marked
post-stuck x l h s = send-Steady s.stuck 0 x l h s refl

module _ (x : Front) where
  pub ensure_engine-stuck : (s : Addon) → (ensure_engine (post x) s).stuck ≡ s.stuck
  unfolding post Marked
  ensure_engine-stuck s =
      ensure_engine-Keeps (Steady s.stuck) (post x) (send-Steady s.stuck 0 x) s refl

  pub request_candidates-stuck :
      (ks : List ℕ) (s : Addon) → (request_candidates (post x) ks s).stuck ≡ s.stuck
  unfolding post Marked
  request_candidates-stuck ks s =
      request_candidates-Keeps (Steady s.stuck) (post x) (send-Steady s.stuck 0 x) ks s refl

  pub stop_engine-stuck : (s : Addon) → (stop_engine (post x) x s).stuck ≡ s.stuck
  unfolding post Marked
  stop_engine-stuck s =
      stop_engine-Marked (Steady s.stuck) (post x) x (recover-Steady s.stuck 1 x)
        (spans_keep (Steady s.stuck)) s refl

  pub die-stuck : (s : Addon) → (die (post x) x s).stuck ≡ s.stuck
  unfolding post Marked
  die-stuck s =
      die-Marked (Steady s.stuck) (post x) x (recover-Steady s.stuck 1 x)
        (spans_keep (Steady s.stuck)) s refl

pub update_ui-stuck : (x : Front) (ic : ℕ) (s : Addon) → (update_ui x ic s).stuck ≡ s.stuck
unfolding update_ui normalize_page
update_ui-stuck x ic s = refl
