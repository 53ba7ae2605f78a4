-- ===== src/Addon/Events.antt =====
-- The addon over the events that reach it, and what holds between them.
use wetype_ime_linux.Base.{
  ℕ, ◌≤◌, List, [], ◌∷◌, ◌++◌, none, some, Bool, true, false, not, ◌&&◌, ◌||◌, ◌≡◌, refl, sym, ap,
  ◌∙◌, subst, Bool-cases, Option-cases, inl, inr, arith, codes, if◌then◌else◌, if-both, if_true,
  if_false, length, length-append, leb,
}
use wetype_ime_linux.Addon.Punctuation.{is_nil}
use wetype_ime_linux.Addon.State.{
  Sym, enter, escape, backspace, Front, QueuedKey, Addon, printable_text, no_handler, get_ic, is_ic,
}
use wetype_ime_linux.Addon.Sending.{post}
use wetype_ime_linux.Addon.Composing.{clear_all, clear_shown, fallback_pending}
use wetype_ime_linux.Addon.Keys.{
  is_sym, drop_release, drop_press, frozen_shorter, pending_backspace, defer_key, pending_key,
  enter_ic, free_key, process_key, max_queued,
}
use wetype_ime_linux.Addon.Settled.{
  Free, Waiting, Settled, shown-Waiting, request-Waiting, clear_all-Free, clear_shown-Free,
  fallback-Free, given_up-Free,
}
use wetype_ime_linux.Daemon.Kept.{none-some, some_inj}
use wetype_ime_linux.Addon.Recovery.{Typing, typing, post-typing}
use wetype_ime_linux.Addon.Ending.{post-stuck}
use wetype_ime_linux.Addon.Pressed.{Free-le, stuck-Free, Pressed, free_key_lem}

drop_release-le : (y : Sym) (ks : List QueuedKey) → length (drop_release y ks) ≤ length ks
unfolding drop_release
drop_release-le y [] = omega arith
drop_release-le y (k ∷ ks) =
    if-both (λ (r : List QueuedKey). length r ≤ length (k ∷ ks)) (k.release && is_sym k.raw.sym y) _
      _ (omega arith) (omega (arith, drop_release-le y ks))

drop_press-le : (ks ls : List QueuedKey) → drop_press ks ≡ some ls → length ls ≤ length ks
unfolding drop_press
drop_press-le [] ls h = absurd (none-some h)
drop_press-le (k ∷ ks) ls h = elim (Option-cases (drop_press ks)) [
  | inr (rest, e) ↦
      let q : drop_press (k ∷ ks) ≡ some (k ∷ rest) = rw (drop_press, e) refl in
      let ih = drop_press-le ks rest e in
      subst (λ r. length r ≤ length (k ∷ ks)) (some_inj (sym q ∙ h)) (omega (arith, ih))
  | inl e ↦ elim (Bool-cases k.release) [
    | inl r ↦
        let q : drop_press (k ∷ ks) ≡ none = rw (drop_press, e, r) refl in
        absurd (none-some (sym q ∙ h))
    | inr r ↦
        let q : drop_press (k ∷ ks) ≡ some (drop_release k.raw.sym ks) =
          rw (drop_press, e, r) refl in
        subst (λ r. length r ≤ length (k ∷ ks)) (some_inj (sym q ∙ h))
          (omega (arith, drop_release-le k.raw.sym ks))
  ]
]

stuck-Waiting : (n : ℕ) (s : Addon) → Waiting n s → s.stuck ≡ false
unfolding Waiting
stuck-Waiting n s f = f.running

pub quiet-Free : (n : ℕ) (s : Addon) → Free n s → s.pending ≡ false
unfolding Free
quiet-Free n s f = f.quiet

pub waits-Waiting : (n : ℕ) (s : Addon) → Waiting n s → s.pending ≡ true
unfolding Waiting
waits-Waiting n s f = f.waits

pub running : (s : Addon) → Settled s → s.stuck ≡ false
running s (inl f) = stuck-Free 255 s f
running s (inr w) = stuck-Waiting 255 s w

-- A frozen text that lost a letter: it waits on while a letter is left.
frozen_waits :
    (s t : Addon)
    → typing t ≡ typing (frozen_shorter s)
    → t.stuck ≡ s.stuck
    → Waiting 255 s
    → is_nil t.buf ≡ false
    → Waiting 255 t
unfolding Waiting typing frozen_shorter
frozen_waits s t e m w b = record {
  covered = ap (λ (r : Typing). length r.covers) e ∙ sym (ap (λ (r : Typing). length r.cands) e);
  waits = ap (λ (r : Typing). r.pending) e ∙ w.waits;
  text = b;
  few = subst (λ q. length q ≤ 255) (sym (ap (λ (r : Typing). r.queued) e)) w.few;
  running = m ∙ w.running;
}

frozen_covers :
    (s t : Addon) → typing t ≡ typing (frozen_shorter s) → length t.covers ≡ length t.cands
unfolding typing frozen_shorter
frozen_covers s t e =
    ap (λ (r : Typing). length r.covers) e ∙ sym (ap (λ (r : Typing). length r.cands) e)

frozen_mark : (s : Addon) → (frozen_shorter s).stuck ≡ s.stuck
unfolding frozen_shorter
frozen_mark s = refl

-- With no key waiting.
pub calm : (s : Addon) → Free 0 s → Settled s
calm s f = inl (Free-le 0 255 s (omega arith) f)

module _ (x : Front) (ic : ℕ) where
  requeued :
      (ks : List QueuedKey) (s : Addon)
      → length ks ≤ length s.queued
      → Waiting 255 s
      → Waiting 255 (record s { queued = ks })
  unfolding Waiting
  requeued ks s h w = record {
    covered = w.covered;
    waits = w.waits;
    text = w.text;
    few = omega (arith, w.few, h);
    running = w.running;
  }

  pending_backspace_lem : (s : Addon) → Waiting 255 s → Settled (pending_backspace x ic s)
  unfolding pending_backspace
  pending_backspace_lem s w = elim (Option-cases (drop_press s.queued)) [
    | inr (ks, e) ↦
        rw (pending_backspace, e)
          (inr (shown-Waiting x 255 ic _ (requeued ks s (drop_press-le s.queued ks e) w)))
    | inl e ↦
        let s₁ = post x (codes "C") no_handler (frozen_shorter s) in
        let same : typing s₁ ≡ typing (frozen_shorter s) =
          post-typing x (codes "C") no_handler (frozen_shorter s) in
        let mark : s₁.stuck ≡ s.stuck =
          post-stuck x (codes "C") no_handler (frozen_shorter s) ∙ frozen_mark s in
        elim (Bool-cases (is_nil s₁.buf)) [
          | inl b ↦
              rw (pending_backspace, e, b)
                (calm (fallback_pending x ic s₁)
                  (given_up-Free x ic s₁ (frozen_covers s s₁ same) (mark ∙ stuck-Waiting 255 s w)))
          | inr b ↦
              rw (pending_backspace, e, b)
                (inr (
                  shown-Waiting x 255 ic _
                    (request-Waiting x 255 _ s₁ (frozen_waits s s₁ same mark w b))))
        ]
  ]

  grown_Waiting :
      (e : QueuedKey) (s : Addon)
      → Waiting 255 s
      → Waiting 256 (record s { queued = s.queued ++ e ∷ [] })
  unfolding Waiting
  grown_Waiting e s w = record {
    covered = w.covered;
    waits = w.waits;
    text = w.text;
    few = omega (arith, w.few, length-append s.queued (e ∷ []));
    running = w.running;
  }

  fits : (s : Addon) → leb max_queued (length s.queued) ≡ false → Waiting 256 s → Waiting 255 s
  unfolding Waiting
  fits s b w = record {
    covered = w.covered;
    waits = w.waits;
    text = w.text;
    few = ground (arith, b);
    running = w.running;
  }

  defer_key_lem : (e : QueuedKey) (s : Addon) → Waiting 255 s → Settled (defer_key x ic e s)
  unfolding defer_key
  defer_key_lem e s w =
      let s₁ : Addon = record s { queued = s.queued ++ e ∷ [] } in
      elim (Bool-cases (leb max_queued (length s₁.queued))) [
        | inl b ↦ rw b (calm _ (fallback-Free x 256 ic s₁ (grown_Waiting e s w)))
        | inr b ↦ rw b (inr (shown-Waiting x 255 ic s₁ (fits s₁ b (grown_Waiting e s w))))
      ]

  pending_key_lem : (e : QueuedKey) (s : Addon) → Waiting 255 s → Settled (pending_key x ic e s).1
  unfolding pending_key
  pending_key_lem e s w =
      let press = not e.release && not e.key.shortcut in
      if-both (λ (r : Bool × Addon). Settled r.1) (press && is_sym e.key.sym escape)
        (true, clear_shown x ic s) _ (calm _ (clear_shown-Free x ic s (stuck-Waiting 255 s w)))
        (if-both (λ (r : Bool × Addon). Settled r.1) (press && is_sym e.key.sym backspace)
          (true, pending_backspace x ic s) _ (pending_backspace_lem s w)
          (if-both (λ (r : Bool × Addon). Settled r.1)
            (not e.release && (is_nil (printable_text x e.key) || e.key.shortcut))
            (not e.key.shortcut && is_sym e.key.sym enter, fallback_pending x ic s)
            (true, defer_key x ic e s) (calm _ (fallback-Free x 255 ic s w)) (defer_key_lem e s w)))

  owned_Free : (n : ℕ) (s : Addon) → Free n s → Free n (record s { ic_ref = some ic })
  unfolding Free
  owned_Free n s f = f

  owned_Waiting : (s : Addon) → Waiting 255 s → Waiting 255 (record s { ic_ref = some ic })
  unfolding Waiting
  owned_Waiting s f = f

  owned : (s : Addon) → Settled s → Settled (record s { ic_ref = some ic })
  owned s (inl f) = inl (owned_Free 255 s f)
  owned s (inr w) = inr (owned_Waiting s w)

  enter_ic_lem : (s : Addon) → Settled s → Settled (enter_ic x ic s)
  unfolding enter_ic
  enter_ic_lem s h = owned _ (
      if-both Settled (is_ic (get_ic x s.ic_ref) ic) _ _ h
        (calm _ (clear_all-Free x s (running s h))))

  keyed :
      (e : QueuedKey) (s : Addon)
      → Settled s
      → Settled (if s.pending then pending_key x ic e s else free_key x ic e s).1
  keyed e s (inl f) =
      if_false (λ (r : Bool × Addon). Settled r.1) s.pending _ (free_key x ic e s)
        (quiet-Free 255 s f) (free_key_lem x 255 ic e s f)
  keyed e s (inr w) =
      if_true (λ (r : Bool × Addon). Settled r.1) s.pending (pending_key x ic e s) _
        (waits-Waiting 255 s w) (pending_key_lem e s w)

  -- Every key keeps what holds between two events.
  pub process_key-Settled :
      (e : QueuedKey) (s : Addon) → Settled s → Settled (process_key x ic e s).1
  unfolding process_key
  process_key-Settled e s h = keyed e (enter_ic x ic s) (enter_ic_lem s h)

  same_Free :
      (n : ℕ) (s : Addon)
      → is_ic (get_ic x s.ic_ref) ic ≡ true
      → Free n s
      → Free n (enter_ic x ic s)
  unfolding enter_ic
  same_Free n s same f =
      owned_Free n _ (if_true (Free n) (is_ic (get_ic x s.ic_ref) ic) s (clear_all x s) same f)

  -- With no candidates awaited and the context the same, a key leaves no more keys waiting.
  pub process_key-Free :
      (n : ℕ) (e : QueuedKey) (s : Addon)
      → is_ic (get_ic x s.ic_ref) ic ≡ true
      → Free n s
      → Pressed n (process_key x ic e s)
  unfolding process_key
  process_key-Free n e s same f =
      let s₁ = enter_ic x ic s in
      let f₁ = same_Free n s same f in
      if_false (Pressed n) s₁.pending (pending_key x ic e s₁) (free_key x ic e s₁)
        (quiet-Free n s₁ f₁) (free_key_lem x n ic e s₁ f₁)
