-- ===== src/Addon/Replies.antt =====
-- What holds of the addon between two events is kept by every event, and every event ends.
use wetype_ime_linux.Base.{
  ℕ, zero, suc, ◌≤◌, List, [], ◌∷◌, ◌++◌, Bool, true, false, not, ◌||◌, ◌≡◌, ◌⊎◌, refl, ap,
  Bool-cases, inl, inr, arith, if◌then◌else◌, if-both, if_true, if_false, length,
}
use wetype_ime_linux.Base.Int.{ℤ}
use wetype_ime_linux.Addon.State.{Front, QueuedKey, forward, Addon, get_ic, is_ic}
use wetype_ime_linux.Addon.Keys.{process_key}
use wetype_ime_linux.Addon.Answering.{drain_keys, drain_queued, firsts, seconds}
use wetype_ime_linux.Addon.Settled.{Free, Waiting, Settled}
use wetype_ime_linux.Addon.Pressed.{Free-le}
use wetype_ime_linux.Addon.Events.{process_key-Free, waits-Waiting}

pub parts_lem : (cs : List (List ℕ × ℤ)) → length (seconds cs) ≡ length (firsts cs)
unfolding firsts seconds
parts_lem [] = refl
parts_lem ((t, c) ∷ cs) = ap suc (parts_lem cs)

module _ (x : Front) (ic : ℕ) where
  popped_Free :
      (n : ℕ) (k : QueuedKey) (ks : List QueuedKey) (s : Addon)
      → s.queued ≡ k ∷ ks
      → Free (suc n) s
      → Free n (record s { queued = ks })
  unfolding Free
  popped_Free n k ks s q f = record {
    covered = f.covered;
    quiet = f.quiet;
    few = omega (arith, f.few, ap length q);
    running = f.running;
  }

  sent_Free :
      (n : ℕ) (s : Addon) (k : QueuedKey)
      → Free n s
      → Free n (record s { out = s.out ++ forward ic k.raw k.release k.time ∷ [] })
  unfolding Free
  sent_Free n s k f = f

  sent_Waiting :
      (n : ℕ) (s : Addon) (k : QueuedKey)
      → Waiting n s
      → Waiting n (record s { out = s.out ++ forward ic k.raw k.release k.time ∷ [] })
  unfolding Waiting
  sent_Waiting n s k f = f

  few_Free : (n : ℕ) (s : Addon) → Free n s → length s.queued ≤ n
  unfolding Free
  few_Free n s f = f.few

  Waiting-le : (m n : ℕ) (s : Addon) → m ≤ n → Waiting m s → Waiting n s
  unfolding Waiting
  Waiting-le m n s h f = record {
    covered = f.covered;
    waits = f.waits;
    text = f.text;
    few = omega (arith, f.few, h);
    running = f.running;
  }

  few_Waiting : (n : ℕ) (s : Addon) → Waiting n s → length s.queued ≤ n
  unfolding Waiting
  few_Waiting n s f = f.few

  or_true : (a b : Bool) → a ≡ true → (a || b) ≡ true
  or_true a b h = ground (arith, h)

  or_false : (a b : Bool) → (a || not b) ≡ false → b ≡ true
  or_false a b h = ground (arith, h)

  too_few : (n : ℕ) → suc n ≤ 0 → ⊥
  too_few n h = omega arith

  -- The loop stops at once when candidates are awaited again.
  drain_keys-Waiting :
      (fuel n : ℕ) (ks : List QueuedKey) (s : Addon)
      → length ks ≤ fuel
      → Waiting n s
      → Waiting n (drain_keys fuel x ic ks s)
  unfolding drain_keys
  drain_keys-Waiting fuel n [] s h w = w
  drain_keys-Waiting zero n (k ∷ ks) s h w = absurd (too_few (length ks) h)
  drain_keys-Waiting (suc fuel) n (k ∷ ks) s h w =
      if_true (Waiting n) (s.pending || not (is_ic (get_ic x s.ic_ref) ic)) s _
        (or_true s.pending (not (is_ic (get_ic x s.ic_ref) ic)) (waits-Waiting n s w)) w

  abbrev Left : ℕ → Addon → Type 0
  Left n s = Free n s ⊎ Waiting n s

  Left-suc : (n : ℕ) (s : Addon) → Left n s → Left (suc n) s
  Left-suc n s (inl f) = inl (Free-le n (suc n) s (omega arith) f)
  Left-suc n s (inr w) = inr (Waiting-le n (suc n) s (omega arith) w)

  passed_on :
      (n : ℕ) (k : QueuedKey) (b : Bool) (s : Addon)
      → Left n s
      → Left n (if b then s else record s { out = s.out ++ forward ic k.raw k.release k.time ∷ [] })
  passed_on n k b s (inl f) = inl (if-both (Free n) b _ _ f (sent_Free n s k f))
  passed_on n k b s (inr w) = inr (if-both (Waiting n) b _ _ w (sent_Waiting n s k w))

  drain_keys-Free :
      (fuel : ℕ) (ks : List QueuedKey) (s : Addon)
      → s.queued ≡ ks
      → Free fuel s
      → Left fuel (drain_keys fuel x ic ks s)
  unfolding drain_keys
  drain_keys-Free fuel [] s q f = inl f
  drain_keys-Free zero (k ∷ ks) s q f =
      absurd (too_few (length ks) (omega (arith, few_Free 0 s f, ap length q)))
  drain_keys-Free (suc fuel) (k ∷ ks) s q f =
      let stops = s.pending || not (is_ic (get_ic x s.ic_ref) ic) in
      let f₀ = popped_Free fuel k ks s q f in
      elim (Bool-cases stops) [
        | inl h ↦ if_true (Left (suc fuel)) stops s _ h (inl f)
        | inr h ↦
            let s₀ : Addon = record s { queued = ks } in
            let r = process_key x ic k s₀ in
            let left =
              process_key-Free x ic fuel k s₀ (or_false s.pending (is_ic (get_ic x s.ic_ref) ic) h)
                f₀ in
            if_false (Left (suc fuel)) stops s _ h (
              Left-suc fuel _ (elim (passed_on fuel k r.0 r.1 left) [
                | inl g ↦ drain_keys-Free fuel _ _ refl g
                | inr w ↦ inr (drain_keys-Waiting fuel fuel _ _ (few_Waiting fuel _ w) w)
              ]))
      ]

  draining_Free : (n : ℕ) (b : Bool) (s : Addon) → Free n s → Free n (record s { draining = b })
  unfolding Free
  draining_Free n b s f = f

  draining_Waiting :
      (n : ℕ) (b : Bool) (s : Addon) → Waiting n s → Waiting n (record s { draining = b })
  unfolding Waiting
  draining_Waiting n b s f = f

  exact_Free : (s : Addon) → Free 255 s → Free (length s.queued) s
  unfolding Free
  exact_Free s f = record {
    covered = f.covered;
    quiet = f.quiet;
    few = omega arith;
    running = f.running;
  }

  -- Draining the keys that wait ends.
  drained : (n : ℕ) (s : Addon) → n ≤ 255 → Left n s → Settled (record s { draining = false })
  drained n s h (inl f) = inl (Free-le n 255 _ h (draining_Free n false s f))
  drained n s h (inr w) = inr (Waiting-le n 255 _ h (draining_Waiting n false s w))

  pub drain_queued_lem : (s : Addon) → Free 255 s → Settled (drain_queued x ic s)
  unfolding drain_queued
  drain_queued_lem s f =
      let n = length s.queued in
      if-both Settled s.draining s _ (inl f) (
        drained n (drain_keys n x ic s.queued (record s { draining = true })) (few_Free 255 s f) (
          drain_keys-Free n s.queued (record s { draining = true }) refl
            (draining_Free n true s (exact_Free s f))))
