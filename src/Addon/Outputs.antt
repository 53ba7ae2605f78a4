-- ===== src/Addon/Outputs.antt =====
-- What the addon hands to the application.
use wetype_ime_linux.Base.{
  filter, map, ◌⊎◌, ℕ, List, [], ◌∷◌, ◌++◌, none, some, Bool, true, false, not, ◌&&◌, ◌≡◌, refl,
  sym, ap, ◌∙◌, Bool-cases, Option-cases, inl, inr, arith, codes, if◌then◌else◌, if-both, if_true,
  if_false, drop, get_elem?, str_eqb,
}
use wetype_ime_linux.Base.Int.{ℤ, pos_part}
use mathlib.Core.List.{append_assoc, append-nil}
use wetype_ime_linux.Addon.State.{
  Front, QueuedKey, Request, Output, commit, forward, Addon, no_handler, cand_handler, update_ui,
  pending_raw, presses, printable_text, remember_trailing, set_punct, normalize_page,
}
use wetype_ime_linux.Addon.Sending.{post, request_candidates, request_of, reply_ic, is_current}
use wetype_ime_linux.Addon.Composing.{
  commit_string, drop_cands, committed, commit_text, takes_all, cover_at, partly_committed,
  take_candidate, commit_candidate, select_line, cancel_pending, disarm_pending, forward_releases,
  fallback_pending,
}
use wetype_ime_linux.Addon.Answering.{
  cands_set, settle_pending, odd_reply, is_preview, is_cand, cand_reply, parse_cands, firsts,
  seconds,
}
use wetype_ime_linux.Addon.Recovery.{
  Typing, typing, post-typing, update_ui-typing, request_candidates-typing, tried_set,
}

out_of : (s t : Addon) → typing t ≡ typing s → t.out ≡ s.out
unfolding typing
out_of s t e = ap (λ (r : Typing). r.out) e

buf_of : (s t : Addon) → typing t ≡ typing s → t.buf ≡ s.buf
unfolding typing
buf_of s t e = ap (λ (r : Typing). r.buf) e

queue_of : (s t : Addon) → typing t ≡ typing s → t.queued ≡ s.queued
unfolding typing
queue_of s t e = ap (λ (r : Typing). r.queued) e

pending_of : (s t : Addon) → typing t ≡ typing s → t.pending ≡ s.pending
unfolding typing
pending_of s t e = ap (λ (r : Typing). r.pending) e

-- What a commit of `t` leaves: the text is handed out once, and `left` is still being composed.
pub record Gave (ic : ℕ) (t left : List ℕ) (s s' : Addon) : Type 0 where
  pub out : s'.out ≡ s.out ++ commit ic t ∷ []
  pub buf : s'.buf ≡ left
  pub queued : s'.queued ≡ s.queued
  pub pending : s'.pending ≡ s.pending

Gave-typing :
    (ic : ℕ) (t left : List ℕ) (s u v : Addon)
    → typing v ≡ typing u
    → Gave ic t left s u
    → Gave ic t left s v
Gave-typing ic t left s u v e g = record {
  out = out_of u v e ∙ g.out;
  buf = buf_of u v e ∙ g.buf;
  queued = queue_of u v e ∙ g.queued;
  pending = pending_of u v e ∙ g.pending;
}

Gave-before :
    (ic : ℕ) (t left : List ℕ) (s u v : Addon)
    → typing u ≡ typing s
    → Gave ic t left u v
    → Gave ic t left s v
Gave-before ic t left s u v e g = record {
  out = g.out ∙ ap (λ o. o ++ commit ic t ∷ []) (out_of s u e);
  buf = g.buf;
  queued = g.queued ∙ queue_of s u e;
  pending = g.pending ∙ pending_of s u e;
}

unfoldable pub joined : List (List ℕ) → List ℕ
joined [] = []
joined (t ∷ ts) = t ++ joined ts

module _ (x : Front) (ic : ℕ) where
  committed-Gave : (t : List ℕ) (s : Addon) → Gave ic t [] s (committed x ic t s)
  unfolding committed drop_cands commit_string remember_trailing set_punct
  committed-Gave t s = record { out = refl; buf = refl; queued = refl; pending = refl }

  commit_text-Gave : (t : List ℕ) (s : Addon) → Gave ic t [] s (commit_text x ic t s)
  unfolding commit_text
  commit_text-Gave t s =
      Gave-typing ic t [] s _ _
        (update_ui-typing x ic _ ∙ post-typing x (codes "C") no_handler (committed x ic t s))
        (committed-Gave t s)

  partly-Gave :
      (t : List ℕ) (c : ℕ) (s : Addon) → Gave ic t (drop c s.buf) s (partly_committed x ic t c s)
  unfolding partly_committed drop_cands commit_string remember_trailing set_punct
  partly-Gave t c s = record { out = refl; buf = refl; queued = refl; pending = refl }

  -- What is still composed after a candidate of this cover.
  unfoldable pub left_by : ℤ → List ℕ → List ℕ
  left_by cover buf = if takes_all cover buf then [] else drop (pos_part cover) buf

  either :
      (b : Bool) (t left : List ℕ) (s u v : Addon)
      → Gave ic t [] s u
      → Gave ic t left s v
      → Gave ic t (if b then [] else left) s (if b then u else v)
  either true t left s u v g h = g
  either false t left s u v g h = h

  take_candidate-Gave :
      (i : ℕ) (t : List ℕ) (s : Addon)
      → Gave ic t (left_by (cover_at i s.covers) s.buf) s (take_candidate x ic i t s)
  unfolding take_candidate left_by
  take_candidate-Gave i t s =
      let c = pos_part (cover_at i s.covers) in
      let s₁ = partly_committed x ic t c s in
      let h = cand_handler (request_of s₁) in
      either (takes_all (cover_at i s.covers) s.buf) t (drop c s.buf) s _ _
        (Gave-before ic t [] s (post x (select_line i) no_handler s) _
          (post-typing x (select_line i) no_handler s) (commit_text-Gave t _))
        (Gave-typing ic t _ s s₁ _
          (update_ui-typing x ic (post x (select_line i) h s₁) ∙ post-typing x (select_line i) h s₁)
          (partly-Gave t c s))

  -- Choosing a candidate hands its text out once and leaves the pinyin that it does not cover, whatever
  -- system calls fail; nothing is left when its cover is unknown or the whole buffer.
  pub commit_candidate-Gave :
      (i : ℕ) (t : List ℕ) (s : Addon)
      → s.current ≡ true
      → get_elem? s.cands i ≡ some t
      → Gave ic t (left_by (cover_at i s.covers) s.buf) s (commit_candidate x ic i s)
  unfolding commit_candidate
  commit_candidate-Gave i t s c g =
      if_false (Gave ic t (left_by (cover_at i s.covers) s.buf) s) (not s.current) s _ (ap not c)
        (rw g (take_candidate-Gave i t s))

  -- A choice made of outdated candidates, or past their end, does nothing.
  pub commit_candidate_idle :
      (i : ℕ) (s : Addon)
      → (s.current ≡ false) ⊎ (get_elem? s.cands i ≡ none)
      → commit_candidate x ic i s ≡ s
  unfolding commit_candidate
  commit_candidate_idle i s (inl c) = if_true (λ r. r ≡ s) (not s.current) s _ (ap not c) refl
  commit_candidate_idle i s (inr g) = elim (Bool-cases s.current) [
    | inl c ↦ rw (commit_candidate, g) (if-both (λ r. r ≡ s) (not s.current) s s refl refl)
    | inr c ↦ if_true (λ r. r ≡ s) (not s.current) s _ (ap not c) refl
  ]

  -- The releases among the keys, as they are passed on.
  unfoldable pub releases_of : List QueuedKey → List Output
  releases_of [] = []
  releases_of (k ∷ ks) =
      let rest = releases_of ks in if k.release then forward ic k.raw true k.time ∷ rest else rest

  passed :
      (b : Bool) (f : Output) (rs : List Output) (s : Addon)
      → (if b then record s { out = s.out ++ f ∷ [] } else s).out ++ rs
        ≡ s.out ++ (if b then f ∷ rs else rs)
  passed true f rs s = append_assoc s.out (f ∷ []) rs
  passed false f rs s = refl

  forward_releases-out :
      (ks : List QueuedKey) (s : Addon) → (forward_releases ic ks s).out ≡ s.out ++ releases_of ks
  unfolding forward_releases releases_of
  forward_releases-out [] s = sym (append-nil s.out)
  forward_releases-out (k ∷ ks) s =
      forward_releases-out ks _ ∙ passed k.release (forward ic k.raw true k.time) (releases_of ks) s

  cancelled_out : (s : Addon) → (cancel_pending s).out ≡ s.out
  unfolding cancel_pending disarm_pending
  cancelled_out s = refl

  -- The text of the keys pressed, one after the other.
  unfoldable pub typed : List QueuedKey → List ℕ
  typed ks = joined (
      map (λ (k : QueuedKey). printable_text x k.key)
        (filter (λ (k : QueuedKey). not k.release) ks))

  presses_lem : (ks : List QueuedKey) → presses x ks ≡ typed ks
  unfolding presses typed joined
  presses_lem [] = refl
  presses_lem (k ∷ ks) = elim (Bool-cases k.release) [
    | inl e ↦ rw e (presses_lem ks)
    | inr e ↦ rw e (ap (λ t. printable_text x k.key ++ t) (presses_lem ks))
  ]

  pending_raw_lem :
      (s : Addon) → s.pending ≡ true → pending_raw x s ≡ s.buf ++ b' ' ∷ typed s.queued
  unfolding pending_raw
  pending_raw_lem s h =
      let space : List ℕ = if s.pending then codes " " else [] in
      append_assoc s.buf space (presses x s.queued)
      ∙ ap (λ t. s.buf ++ t)
          (if_true (λ t. t ++ presses x s.queued ≡ b' ' ∷ typed s.queued) s.pending (codes " ") [] h
            (ap (λ t. b' ' ∷ t) (presses_lem s.queued)))

  -- Giving up the wait for candidates loses nothing: the pinyin, the space and the text of the keys
  -- typed since are handed out together, and then the releases, in order.
  pub fallback_pending-out :
      (s : Addon)
      → s.pending ≡ true
      → (fallback_pending x ic s).out
        ≡ s.out ++ commit ic (s.buf ++ b' ' ∷ typed s.queued) ∷ releases_of s.queued
  unfolding fallback_pending
  fallback_pending-out s h =
      let s₁ = cancel_pending s in
      let t = pending_raw x s in
      let g = commit_text-Gave t s₁ in
      forward_releases-out s.queued (commit_text x ic t s₁)
      ∙ ap (λ o. o ++ releases_of s.queued)
          (g.out ∙ ap (λ o. o ++ commit ic t ∷ []) (cancelled_out s))
      ∙ append_assoc s.out (commit ic t ∷ []) (releases_of s.queued)
      ∙ ap (λ r. s.out ++ commit ic r ∷ releases_of s.queued) (pending_raw_lem s h)

  cands_set-typing :
      (b : Bool) (cs : List (List ℕ × ℤ)) (s : Addon) → (cands_set x ic b cs s).out ≡ s.out
  unfolding cands_set
  cands_set-typing b cs s = out_of _ _ (
      update_ui-typing x ic (record s {
        cands = firsts cs;
        covers = seconds cs;
        current = b;
        window_start = 0;
        selected = 0;
      }))

  set_fields :
      (b : Bool) (cs : List (List ℕ × ℤ)) (s : Addon)
      → (cands_set x ic b cs s).current && (cands_set x ic b cs s).pending ≡ b && s.pending
  unfolding cands_set update_ui normalize_page
  set_fields b cs s = refl

  settled_out :
      (b : Bool) (cs : List (List ℕ × ℤ)) (s : Addon)
      → (b && s.pending) ≡ false
      → (settle_pending x ic (cands_set x ic b cs s)).out ≡ s.out
  unfolding settle_pending
  settled_out b cs s h =
      let t = cands_set x ic b cs s in
      if_true (λ (r : Addon). r.out ≡ s.out) (not (t.current && t.pending)) t _
        (ap not (set_fields b cs s ∙ h)) (cands_set-typing b cs s)

  odd_out : (s : Addon) → s.pending ≡ false → (odd_reply x ic s).out ≡ s.out
  unfolding odd_reply
  odd_out s h =
      let s₁ = post x (codes "C") no_handler (record s { recovery_tried = true }) in
      if-both (λ (r : Addon). r.out ≡ s.out) s.recovery_tried _
        (request_candidates (post x) s₁.buf s₁)
        (if_false (λ (r : Addon). r.out ≡ s.out) s.pending (fallback_pending x ic s) s h refl)
        (out_of s _ (
          request_candidates-typing (post x) (post-typing x) s₁.buf s₁
          ∙ post-typing x (codes "C") no_handler (record s { recovery_tried = true })
          ∙ tried_set s))

  waits_not : (p c : Bool) → (p && c) ≡ false → c ≡ true → p ≡ false
  waits_not p c h k = ground (arith, h, k)

  and_off : (b p : Bool) → (p && b) ≡ false → (b && p) ≡ false
  and_off b p h = ground (arith, h)

  both_not : (a b : Bool) → a ≡ false → b ≡ false → (not a && not b) ≡ true
  both_not a b h k = ground (arith, h, k)

  cand_not : (a b : Bool) → b ≡ true → (not a && not b) ≡ false
  cand_not a b h = ground (arith, h)

  preview-is_cand :
      (r : Request) (resp : List ℕ) (s : Addon) → is_preview r resp s ≡ true → is_cand resp ≡ true
  unfolding is_preview
  preview-is_cand r resp s h = last_of _ _ h
    where
      last_of : (a b : Bool) → (a && b) ≡ true → b ≡ true
      last_of a b h = ground (arith, h)

-- The reply that is let in hands nothing out.
let_in_out :
    (x : Front) (ic : ℕ) (r : Request) (resp : List ℕ) (s : Addon)
    → (s.pending && is_current r s) ≡ false
    → (if not (is_current r s) && not (is_preview r resp s)
        then s
        else if not (str_eqb resp (codes "EMPTY")) && not (is_cand resp)
        then odd_reply x ic s
        else settle_pending x ic
            (cands_set x ic (is_current r s) (parse_cands s.spans_enabled resp) s)).out
      ≡ s.out
let_in_out x ic r resp s h =
    let P : Addon → Type 0 = λ t. t.out ≡ s.out in
    let done =
      settled_out x ic (is_current r s) (parse_cands s.spans_enabled resp) s
        (and_off x ic (is_current r s) s.pending h) in
    elim (Bool-cases (is_current r s)) [
      | inl c ↦ if-both P (not (is_current r s) && not (is_preview r resp s)) s _ refl (
          if-both P (not (str_eqb resp (codes "EMPTY")) && not (is_cand resp)) _ _
            (odd_out x ic s (waits_not x ic s.pending (is_current r s) h c)) done)
      | inr c ↦ elim (Bool-cases (is_preview r resp s)) [
        | inl p ↦ if-both P (not (is_current r s) && not (is_preview r resp s)) s _ refl (
            if_false P (not (str_eqb resp (codes "EMPTY")) && not (is_cand resp)) _ _
              (cand_not x ic (str_eqb resp (codes "EMPTY")) (is_cand resp)
                (preview-is_cand x ic r resp s p))
              done)
        | inr p ↦
            if_true P (not (is_current r s) && not (is_preview r resp s)) s _
              (both_not x ic (is_current r s) (is_preview r resp s) c p) refl
      ]
    ]

-- A reply hands nothing to the application unless it is for the buffer as it is now and a Space waits
-- for it: neither a reply of any kind to an outdated request, nor a preview, nor one that finds no
-- Space waiting.
pub cand_reply-out :
    (x : Front) (r : Request) (resp : List ℕ) (s : Addon)
    → (s.pending && is_current r s) ≡ false
    → (cand_reply x r resp s).out ≡ s.out
unfolding cand_reply
cand_reply-out x r resp s h = elim (Option-cases (reply_ic x r s)) [
  | inl e ↦ rw (cand_reply, e) refl
  | inr (ic, e) ↦
      rw (cand_reply, e)
        (if-both (λ (t : Addon). t.out ≡ s.out) (str_eqb resp (codes "SKIP")) s _ refl
          (let_in_out x ic r resp s h))
]
