-- ===== src/Addon/Machine.antt =====
-- The addon as a machine over the events that reach it.
use wetype_ime_linux.Base.{
  ℕ, ◌≤◌, List, [], ◌∷◌, Bool, true, false, not, ◌&&◌, ◌≡◌, ◌==◌, refl, Option-cases, inl, inr,
  arith, codes, if◌then◌else◌, if-both, if_true, if_false, length, str_eqb,
}
use wetype_ime_linux.Base.Int.{ℤ}
use wetype_ime_linux.Addon.Punctuation.{is_nil}
use wetype_ime_linux.Addon.State.{
  Front, QueuedKey, Request, Handler, no_handler, spans_handler, cand_handler, Addon, Punct,
  update_ui, get_ic, is_ic, set_punct, remember_trailing,
}
use wetype_ime_linux.Addon.Proc.{Proc}
use wetype_ime_linux.Addon.Sending.{
  post, request_candidates, reply_ic, is_current, die, ensure_engine,
}
use wetype_ime_linux.Addon.Composing.{
  fallback_pending, reset, deactivate, keep_raw, had_text, commit_string,
}
use wetype_ime_linux.Addon.Keys.{process_key}
use wetype_ime_linux.Addon.Answering.{
  odd_reply, cands_set, settle_pending, is_preview, cand_reply, call_handler, call_handlers,
  take_line, firsts, seconds, is_cand, on_start_timeout, on_restart, on_pending_timeout,
  on_surrounding, start_addon, new_addon,
}
use wetype_ime_linux.Addon.Settled.{
  Free, Waiting, Settled, post-Free, post-Waiting, shown-Free, shown-Waiting, request-Waiting,
  request-Free, fallback-Free, commit_candidate-Free, disarmed-Free, die-Free, die-Waiting,
  ensure-Free, ensure-Waiting, clear_all-Free,
}
use wetype_ime_linux.Addon.Events.{process_key-Settled, calm, quiet-Free, waits-Waiting, running}
use wetype_ime_linux.Addon.Replies.{drain_queued_lem, parts_lem}

-- What happens to the addon: a key, `reset`, `deactivate`, a line of the engine, the end of its
-- output, the timers, new surrounding text.
pub data Event : Type 0 where
  key : ℕ → QueuedKey → Event
  resets : ℕ → Event
  leaves : Bool → ℕ → Event
  says : List ℕ → Event
  hangs_up start_late restart_due wait_late : Event
  surrounds : ℕ → Bool → List ℕ → Event

unfoldable pub step : Front → Event → Addon → Addon
step x (key ic e) s = (process_key x ic e s).1
step x (resets ic) s = reset x ic s
step x (leaves switching ic) s = deactivate x switching ic s
step x (says l) s = take_line x l s
step x hangs_up s = die (post x) x s
step x start_late s = on_start_timeout x s
step x restart_due s = on_restart x s
step x wait_late s = on_pending_timeout x s
step x (surrounds ic valid before) s = on_surrounding x ic valid before s

-- Each event comes with what Fcitx answers during it.
unfoldable pub run : List (Front × Event) → Addon → Addon
run [] s = s
run ((x, e) ∷ es) s = run es (step x e s)

module _ (x : Front) where
  post_Settled : (l : List ℕ) (h : Handler) (s : Addon) → Settled s → Settled (post x l h s)
  post_Settled l h s (inl f) = inl (post-Free x 255 l h s f)
  post_Settled l h s (inr w) = inr (post-Waiting x 255 l h s w)

  shown_Settled : (ic : ℕ) (s : Addon) → Settled s → Settled (update_ui x ic s)
  shown_Settled ic s (inl f) = inl (shown-Free x 255 ic s f)
  shown_Settled ic s (inr w) = inr (shown-Waiting x 255 ic s w)

  request_Settled :
      (ks : List ℕ) (s : Addon) → Settled s → Settled (request_candidates (post x) ks s)
  request_Settled ks s (inl f) = inl (request-Free x 255 ks s f)
  request_Settled ks s (inr w) = inr (request-Waiting x 255 ks s w)

  ensure_Settled : (s : Addon) → Settled s → Settled (ensure_engine (post x) s)
  ensure_Settled s (inl f) = inl (ensure-Free x 255 s f)
  ensure_Settled s (inr w) = inr (ensure-Waiting x 255 s w)

  die_Settled : (s : Addon) → Settled s → Settled (die (post x) x s)
  die_Settled s (inl f) = inl (die-Free x 255 s f)
  die_Settled s (inr w) = inr (die-Waiting x 255 s w)

  tried_Settled : (s : Addon) → Settled s → Settled (record s { recovery_tried = true })
  unfolding Free Waiting
  tried_Settled s h = h

  spans_Settled : (b : Bool) (s : Addon) → Settled s → Settled (record s { spans_enabled = b })
  unfolding Free Waiting
  spans_Settled b s h = h

  proc_Settled : (p : Proc Handler) (s : Addon) → Settled s → Settled (record s { proc = p })
  unfolding Free Waiting
  proc_Settled p s h = h

  armed_Settled : (b : Bool) (s : Addon) → Settled s → Settled (record s { restart_armed = b })
  unfolding Free Waiting
  armed_Settled b s h = h

  punct_Settled : (ic : ℕ) (g : Punct → Punct) (s : Addon) → Settled s → Settled (set_punct ic g s)
  unfolding Free Waiting set_punct
  punct_Settled ic g s h = h

  cands_Free :
      (now : Bool) (cs : List (List ℕ × ℤ)) (s : Addon)
      → Free 255 s
      → Free 255 (record s {
        cands = firsts cs;
        covers = seconds cs;
        current = now;
        window_start = 0;
        selected = 0;
      })
  unfolding Free
  cands_Free now cs s f = record {
    covered = parts_lem cs;
    quiet = f.quiet;
    few = f.few;
    running = f.running;
  }

  cands_Waiting :
      (now : Bool) (cs : List (List ℕ × ℤ)) (s : Addon)
      → Waiting 255 s
      → Waiting 255 (record s {
        cands = firsts cs;
        covers = seconds cs;
        current = now;
        window_start = 0;
        selected = 0;
      })
  unfolding Waiting
  cands_Waiting now cs s w = record {
    covered = parts_lem cs;
    waits = w.waits;
    text = w.text;
    few = w.few;
    running = w.running;
  }

  cands_set-Settled :
      (ic : ℕ) (now : Bool) (cs : List (List ℕ × ℤ)) (s : Addon)
      → Settled s
      → Settled (cands_set x ic now cs s)
  unfolding cands_set
  cands_set-Settled ic now cs s (inl f) = shown_Settled ic _ (inl (cands_Free now cs s f))
  cands_set-Settled ic now cs s (inr w) = shown_Settled ic _ (inr (cands_Waiting now cs s w))

  fallen : (ic : ℕ) (s : Addon) → Waiting 255 s → Settled (fallback_pending x ic s)
  fallen ic s w = calm (fallback_pending x ic s) (fallback-Free x 255 ic s w)

  and_quiet : (a b : Bool) → b ≡ false → not (a && b) ≡ true
  and_quiet a b h = ground (arith, h)

  settle_pending-Settled : (ic : ℕ) (s : Addon) → Settled s → Settled (settle_pending x ic s)
  unfolding settle_pending
  settle_pending-Settled ic s (inl f) =
      if_true Settled (not (s.current && s.pending)) s _
        (and_quiet s.current s.pending (quiet-Free 255 s f)) (inl f)
  settle_pending-Settled ic s (inr w) = if-both Settled (not (s.current && s.pending)) s _ (inr w) (
      if-both Settled (is_nil s.cands) _ _ (fallen ic s w)
        (drain_queued_lem x ic _ (commit_candidate-Free x 255 ic _ _ (disarmed-Free 255 s w))))

  odd_reply-Settled : (ic : ℕ) (s : Addon) → Settled s → Settled (odd_reply x ic s)
  unfolding odd_reply
  odd_reply-Settled ic s h =
      if-both Settled s.recovery_tried _ _ (gives_up h)
        (request_Settled _ _ (post_Settled (codes "C") no_handler _ (tried_Settled s h)))
    where
      gives_up : Settled s → Settled (if s.pending then fallback_pending x ic s else s)
      gives_up (inl f) = if_false Settled s.pending _ s (quiet-Free 255 s f) (inl f)
      gives_up (inr w) = if_true Settled s.pending _ s (waits-Waiting 255 s w) (fallen ic s w)

  cand_reply-Settled :
      (r : Request) (resp : List ℕ) (s : Addon) → Settled s → Settled (cand_reply x r resp s)
  unfolding cand_reply
  cand_reply-Settled r resp s h = elim (Option-cases (reply_ic x r s)) [
    | inl e ↦ rw (cand_reply, e) h
    | inr (ic, e) ↦
        rw (cand_reply, e)
          (if-both Settled (str_eqb resp (codes "SKIP")) s _ h (
            if-both Settled (not (is_current r s) && not (is_preview r resp s)) s _ h (
              if-both Settled (not (str_eqb resp (codes "EMPTY")) && not (is_cand resp)) _ _
                (odd_reply-Settled ic s h)
                (settle_pending-Settled ic _ (cands_set-Settled ic _ _ s h)))))
  ]

  call_handlers-Settled :
      (l : List ℕ) (hs : List Handler) (s : Addon) → Settled s → Settled (call_handlers x l hs s)
  unfolding call_handlers call_handler
  call_handlers-Settled l [] s h = h
  call_handlers-Settled l (no_handler ∷ hs) s h = call_handlers-Settled l hs s h
  call_handlers-Settled l (spans_handler ∷ hs) s h =
      call_handlers-Settled l hs _ (spans_Settled _ s h)
  call_handlers-Settled l (cand_handler r ∷ hs) s h =
      call_handlers-Settled l hs _ (cand_reply-Settled r l s h)

  pub take_line-Settled : (l : List ℕ) (s : Addon) → Settled s → Settled (take_line x l s)
  unfolding take_line
  take_line-Settled l s h = call_handlers-Settled l _ _ (proc_Settled _ s h)

  reset-Settled : (ic : ℕ) (s : Addon) → Settled s → Settled (reset x ic s)
  unfolding reset
  reset-Settled ic s h =
      let q =
        calm _ (clear_all-Free x _ (running _ (post_Settled (codes "SAVE") no_handler s h))) in
      if-both Settled (had_text s) _ _ (shown_Settled ic _ q) q

  said_Settled :
      (ic : ℕ) (t : List ℕ) (s : Addon)
      → Settled s
      → Settled (commit_string ic t (remember_trailing x ic t s))
  unfolding Free Waiting commit_string remember_trailing set_punct
  said_Settled ic t s h = h

  kept_Settled : (ic : ℕ) (s : Addon) → Settled s → Settled (keep_raw x ic s)
  unfolding keep_raw
  kept_Settled ic s h =
      if-both Settled (is_nil s.buf) _ _ (punct_Settled ic _ s h) (said_Settled ic _ s h)

  deactivate-Settled : (b : Bool) (ic : ℕ) (s : Addon) → Settled s → Settled (deactivate x b ic s)
  unfolding deactivate
  deactivate-Settled b ic s h =
      let q =
        calm _ (clear_all-Free x _ (running _ (if-both Settled b _ _ (kept_Settled ic s h) h))) in
      if-both Settled (had_text s) _ _ (shown_Settled ic _ q) q

  restart-Settled : (s : Addon) → Settled s → Settled (on_restart x s)
  unfolding on_restart
  restart-Settled s h =
      if-both Settled s.proc.alive _ _ (armed_Settled false s h)
        (request_Settled _ _ (ensure_Settled _ (armed_Settled false s h)))

  timeout-Settled : (s : Addon) → Settled s → Settled (on_pending_timeout x s)
  unfolding on_pending_timeout
  timeout-Settled s h = elim (Option-cases s.timer) [
    | inl e ↦ rw (on_pending_timeout, e) h
    | inr ((ic, epoch), e) ↦
        let waits = x.live ic && is_ic (get_ic x s.ic_ref) ic && (epoch == s.epoch) in
        rw (on_pending_timeout, e) (due ic waits h)
  ]
    where
      due :
          (ic : ℕ) (b : Bool)
          → Settled s
          → Settled (if b && s.pending then fallback_pending x ic s else s)
      due ic false h = h
      due ic true (inl f) = if_false Settled s.pending _ s (quiet-Free 255 s f) (inl f)
      due ic true (inr w) = if_true Settled s.pending _ s (waits-Waiting 255 s w) (fallen ic s w)

  pub step-Settled : (e : Event) (s : Addon) → Settled s → Settled (step x e s)
  unfolding step on_start_timeout on_surrounding
  step-Settled (key ic e) s h = process_key-Settled x ic e s h
  step-Settled (resets ic) s h = reset-Settled ic s h
  step-Settled (leaves switching ic) s h = deactivate-Settled switching ic s h
  step-Settled (says l) s h = take_line-Settled l s h
  step-Settled hangs_up s h = die_Settled s h
  step-Settled start_late s h = die_Settled s h
  step-Settled restart_due s h = restart-Settled s h
  step-Settled wait_late s h = timeout-Settled s h
  step-Settled (surrounds ic valid before) s h = punct_Settled ic _ s h

new_addon-Free : (calls : List Bool) → Free 255 (new_addon calls)
unfolding new_addon Free
new_addon-Free calls = record { covered = refl; quiet = refl; few = omega arith; running = refl }

run-Settled : (es : List (Front × Event)) (s : Addon) → Settled s → Settled (run es s)
unfolding run
run-Settled [] s h = h
run-Settled ((x, e) ∷ es) s h = run-Settled es (step x e s) (step-Settled x e s h)

start_addon-Settled : (x : Front) (calls : List Bool) → Settled (start_addon x calls)
unfolding start_addon
start_addon-Settled x calls = inl (ensure-Free x 255 _ (new_addon-Free calls))

clash : {A : Type 0} (b : Bool) → b ≡ false → b ≡ true → A
clash b h g = absurd (ground (arith, h, g))

facts :
    (s : Addon)
    → Settled s
    → (length s.covers ≡ length s.cands)
      × (length s.queued ≤ 255)
      × (s.pending ≡ true → is_nil s.buf ≡ false)
      × (s.stuck ≡ false)
unfolding Free Waiting
facts s (inl f) = (f.covered, f.few, λ h. clash s.pending f.quiet h, f.running)
facts s (inr w) = (w.covered, w.few, λ h. w.text, w.running)

-- Whatever happens to the addon since its start, and whichever system calls fail: each candidate has
-- its cover, at most 255 keys wait, a Space that waits has pinyin to fall back on, and no loop and no
-- nesting of handlers has run out of fuel.
pub run_holds :
    (x : Front) (calls : List Bool) (es : List (Front × Event))
    → let s = run es (start_addon x calls) in
      (length s.covers ≡ length s.cands)
      × (length s.queued ≤ 255)
      × (s.pending ≡ true → is_nil s.buf ≡ false)
      × (s.stuck ≡ false)
run_holds x calls es = facts _ (run-Settled es _ (start_addon-Settled x calls))
