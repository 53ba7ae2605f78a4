-- ===== src/Addon/Settled.antt =====
-- What holds of the addon between two events, and how its parts keep it.
use wetype_ime_linux.Base.{
  ℕ, ◌≤◌, List, [], ◌∷◌, some, Bool, true, false, not, ◌≡◌, ◌⊎◌, refl, sym, ap, ◌∙◌, subst,
  Bool-cases, Option-cases, inl, inr, arith, codes, if-both, length, get_elem?,
}
use wetype_ime_linux.Base.Int.{ℤ}
use wetype_ime_linux.Addon.Punctuation.{is_nil}
use wetype_ime_linux.Addon.State.{
  Front, QueuedKey, Handler, Addon, update_ui, set_punct, remember_trailing, no_handler,
}
use wetype_ime_linux.Addon.Sending.{post, ensure_engine, request_candidates, die}
use wetype_ime_linux.Addon.Composing.{
  commit_string, drop_cands, committed, commit_text, partly_committed, take_candidate,
  commit_candidate, cancel_pending, disarm_pending, cleared, clear_all, clear_shown,
  forward_releases, fallback_pending, arm_pending, select_line, cover_at, takes_all,
}
use wetype_ime_linux.Addon.Recovery.{
  Typing, typing, post-typing, update_ui-typing, ensure_engine-typing, request_candidates-typing,
  die-typing,
}
use wetype_ime_linux.Addon.Ending.{
  post-stuck, update_ui-stuck, ensure_engine-stuck, request_candidates-stuck, die-stuck,
}

-- No candidates are awaited, and at most `n` keys wait.
pub record IsFree (n : ℕ) (covers : List ℤ) (cands : List (List ℕ)) (pending : Bool)
    (queued : List QueuedKey) (stuck : Bool) : Type 0 where
  pub covered : length covers ≡ length cands
  pub quiet : pending ≡ false
  pub few : length queued ≤ n
  pub running : stuck ≡ false

-- A Space waits for candidates of some pinyin, and at most `n` keys after it.
pub record IsWaiting (n : ℕ) (covers : List ℤ) (cands : List (List ℕ)) (pending : Bool)
    (buf : List ℕ) (queued : List QueuedKey) (stuck : Bool) : Type 0 where
  pub covered : length covers ≡ length cands
  pub waits : pending ≡ true
  pub text : is_nil buf ≡ false
  pub few : length queued ≤ n
  pub running : stuck ≡ false

unfoldable pub Free : ℕ → Addon → Type 0
Free n s = IsFree n s.covers s.cands s.pending s.queued s.stuck

unfoldable pub Waiting : ℕ → Addon → Type 0
Waiting n s = IsWaiting n s.covers s.cands s.pending s.buf s.queued s.stuck

-- Between two events.
abbrev pub Settled : Addon → Type 0
Settled s = Free 255 s ⊎ Waiting 255 s

Free-typing : (n : ℕ) (s t : Addon) → typing t ≡ typing s → t.stuck ≡ s.stuck → Free n s → Free n t
unfolding Free typing
Free-typing n s t e m f = record {
  covered =
      ap (λ (r : Typing). length r.covers) e
      ∙ f.covered
      ∙ sym (ap (λ (r : Typing). length r.cands) e);
  quiet = ap (λ (r : Typing). r.pending) e ∙ f.quiet;
  few = subst (λ q. length q ≤ n) (sym (ap (λ (r : Typing). r.queued) e)) f.few;
  running = m ∙ f.running;
}

Waiting-typing :
    (n : ℕ) (s t : Addon) → typing t ≡ typing s → t.stuck ≡ s.stuck → Waiting n s → Waiting n t
unfolding Waiting typing
Waiting-typing n s t e m f = record {
  covered =
      ap (λ (r : Typing). length r.covers) e
      ∙ f.covered
      ∙ sym (ap (λ (r : Typing). length r.cands) e);
  waits = ap (λ (r : Typing). r.pending) e ∙ f.waits;
  text = ap (λ (r : Typing). is_nil r.buf) e ∙ f.text;
  few = subst (λ q. length q ≤ n) (sym (ap (λ (r : Typing). r.queued) e)) f.few;
  running = m ∙ f.running;
}

module _ (x : Front) (n : ℕ) where
  pub post-Free : (l : List ℕ) (h : Handler) (s : Addon) → Free n s → Free n (post x l h s)
  post-Free l h s f = Free-typing n s _ (post-typing x l h s) (post-stuck x l h s) f

  pub post-Waiting : (l : List ℕ) (h : Handler) (s : Addon) → Waiting n s → Waiting n (post x l h s)
  post-Waiting l h s f = Waiting-typing n s _ (post-typing x l h s) (post-stuck x l h s) f

  pub shown-Free : (ic : ℕ) (s : Addon) → Free n s → Free n (update_ui x ic s)
  shown-Free ic s f = Free-typing n s _ (update_ui-typing x ic s) (update_ui-stuck x ic s) f

  pub shown-Waiting : (ic : ℕ) (s : Addon) → Waiting n s → Waiting n (update_ui x ic s)
  shown-Waiting ic s f = Waiting-typing n s _ (update_ui-typing x ic s) (update_ui-stuck x ic s) f

  pub ensure-Free : (s : Addon) → Free n s → Free n (ensure_engine (post x) s)
  ensure-Free s f =
      Free-typing n s _ (ensure_engine-typing (post x) (post-typing x) s) (ensure_engine-stuck x s)
        f

  pub ensure-Waiting : (s : Addon) → Waiting n s → Waiting n (ensure_engine (post x) s)
  ensure-Waiting s f =
      Waiting-typing n s _ (ensure_engine-typing (post x) (post-typing x) s)
        (ensure_engine-stuck x s) f

  pub request-Free :
      (ks : List ℕ) (s : Addon) → Free n s → Free n (request_candidates (post x) ks s)
  request-Free ks s f =
      Free-typing n s _ (request_candidates-typing (post x) (post-typing x) ks s)
        (request_candidates-stuck x ks s) f

  pub request-Waiting :
      (ks : List ℕ) (s : Addon) → Waiting n s → Waiting n (request_candidates (post x) ks s)
  request-Waiting ks s f =
      Waiting-typing n s _ (request_candidates-typing (post x) (post-typing x) ks s)
        (request_candidates-stuck x ks s) f

  pub die-Free : (s : Addon) → Free n s → Free n (die (post x) x s)
  die-Free s f = Free-typing n s _ (die-typing (post x) (post-typing x) x s) (die-stuck x s) f

  pub die-Waiting : (s : Addon) → Waiting n s → Waiting n (die (post x) x s)
  die-Waiting s f = Waiting-typing n s _ (die-typing (post x) (post-typing x) x s) (die-stuck x s) f

  committed-Free : (ic : ℕ) (t : List ℕ) (s : Addon) → Free n s → Free n (committed x ic t s)
  unfolding Free committed drop_cands commit_string remember_trailing set_punct
  committed-Free ic t s f = record {
    covered = refl;
    quiet = f.quiet;
    few = f.few;
    running = f.running;
  }

  pub commit_text-Free :
      (ic : ℕ) (t : List ℕ) (s : Addon) → Free n s → Free n (commit_text x ic t s)
  unfolding commit_text
  commit_text-Free ic t s f =
      shown-Free ic _ (post-Free (codes "C") no_handler _ (committed-Free ic t s f))

  partly-Free :
      (ic : ℕ) (t : List ℕ) (c : ℕ) (s : Addon) → Free n s → Free n (partly_committed x ic t c s)
  unfolding Free partly_committed drop_cands commit_string remember_trailing set_punct
  partly-Free ic t c s f = record {
    covered = refl;
    quiet = f.quiet;
    few = f.few;
    running = f.running;
  }

  take_candidate-Free :
      (ic i : ℕ) (t : List ℕ) (s : Addon) → Free n s → Free n (take_candidate x ic i t s)
  unfolding take_candidate
  take_candidate-Free ic i t s f =
      if-both (Free n) (takes_all (cover_at i s.covers) s.buf) _ _
        (commit_text-Free ic t _ (post-Free (select_line i) no_handler s f))
        (shown-Free ic _ (post-Free (select_line i) _ _ (partly-Free ic t _ s f)))

  pub commit_candidate-Free : (ic i : ℕ) (s : Addon) → Free n s → Free n (commit_candidate x ic i s)
  unfolding commit_candidate
  commit_candidate-Free ic i s f = elim (Bool-cases (not s.current)) [
    | inl e ↦ rw (commit_candidate, e) f
    | inr e ↦ elim (Option-cases (get_elem? s.cands i)) [
      | inl g ↦ rw (commit_candidate, e, g) f
      | inr (t, g) ↦ rw (commit_candidate, e, g) (take_candidate-Free ic i t s f)
    ]
  ]

cleared-Free : (s : Addon) → s.stuck ≡ false → Free 0 (cleared s)
unfolding Free cleared drop_cands cancel_pending disarm_pending
cleared-Free s r = record { covered = refl; quiet = refl; few = omega arith; running = r }

pub clear_all-Free : (x : Front) (s : Addon) → s.stuck ≡ false → Free 0 (clear_all x s)
unfolding clear_all
clear_all-Free x s r = post-Free x 0 (codes "C") no_handler _ (cleared-Free s r)

pub clear_shown-Free :
    (x : Front) (ic : ℕ) (s : Addon) → s.stuck ≡ false → Free 0 (clear_shown x ic s)
unfolding clear_shown
clear_shown-Free x ic s r = shown-Free x 0 ic _ (clear_all-Free x s r)

released-Free :
    (n ic : ℕ) (ks : List QueuedKey) (s : Addon) → Free n s → Free n (forward_releases ic ks s)
unfolding forward_releases Free
released-Free n ic [] s f = f
released-Free n ic (k ∷ ks) s f = released-Free n ic ks _ (if-both (Free n) k.release _ _ f f)

cancelled-Free :
    (s : Addon) → length s.covers ≡ length s.cands → s.stuck ≡ false → Free 0 (cancel_pending s)
unfolding Free cancel_pending disarm_pending
cancelled-Free s c r = record { covered = c; quiet = refl; few = omega arith; running = r }

pub disarmed-Free : (n : ℕ) (s : Addon) → Waiting n s → Free n (disarm_pending s)
unfolding Free Waiting disarm_pending
disarmed-Free n s w = record { covered = w.covered; quiet = refl; few = w.few; running = w.running }

-- Giving up the wait needs no text to be left.
pub given_up-Free :
    (x : Front) (ic : ℕ) (s : Addon)
    → length s.covers ≡ length s.cands
    → s.stuck ≡ false
    → Free 0 (fallback_pending x ic s)
unfolding fallback_pending
given_up-Free x ic s c r =
    released-Free 0 ic s.queued _ (commit_text-Free x 0 ic _ _ (cancelled-Free s c r))

pub fallback-Free :
    (x : Front) (n ic : ℕ) (s : Addon) → Waiting n s → Free 0 (fallback_pending x ic s)
unfolding Waiting
fallback-Free x n ic s w = given_up-Free x ic s w.covered w.running

armed-Waiting :
    (n ic : ℕ) (s : Addon)
    → Free n s
    → is_nil s.buf ≡ false
    → Waiting n (record s { pending = true; timer = some (ic, s.epoch) })
unfolding Free Waiting
armed-Waiting n ic s f t = record {
  covered = f.covered;
  waits = refl;
  text = t;
  few = f.few;
  running = f.running;
}

pub arm_pending_lem :
    (x : Front) (n ic : ℕ) (s : Addon)
    → Free n s
    → is_nil s.buf ≡ false
    → Free 0 (arm_pending x ic s) ⊎ Waiting n (arm_pending x ic s)
unfolding arm_pending
arm_pending_lem x n ic s f t =
    let w = shown-Waiting x n ic _ (armed-Waiting n ic s f t) in
    if-both (λ r. Free 0 r ⊎ Waiting n r) _ _ _ (inl (fallback-Free x n ic _ w)) (inr w)
