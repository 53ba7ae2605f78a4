-- ===== src/Addon/Pressed.antt =====
-- What holds between two events is kept by each key.
use wetype_ime_linux.Base.{
  ℕ, ◌+◌, ◌-◌, ◌≤◌, List, [], Bool, true, false, not, ◌&&◌, ◌||◌, ◌≡◌, ◌⊎◌, refl, Bool-cases, inl,
  inr, arith, codes, if-both, length, leb, ltb, min,
}
use wetype_ime_linux.Addon.Punctuation.{is_nil, is_quote, owns_punctuation}
use wetype_ime_linux.Addon.State.{
  Sym, enter, escape, backspace, ascii, left, right, up, down, page_up, Front, QueuedKey, Addon,
  Punct, page_size, update_ui, normalize_page, set_punct, remember_trailing, punct_for, no_handler,
  fullwidth_punctuation,
}
use wetype_ime_linux.Addon.Composing.{
  commit_string, drop_cands, commit_text, clear_shown, arm_pending,
}
use wetype_ime_linux.Addon.Keys.{
  is_sym, note_digit, type_capital, letter_added, type_letter, arrow_move, page_back, page_next,
  can_choose, punctuate, punctuate_idle, choose_digit, press_space, shorter, press_backspace,
  press_rest, press_key, page_shown, free_key, in_range, is_arrow, is_next, code_of, lower,
  text_chosen,
}
use wetype_ime_linux.Addon.Settled.{
  Free, Waiting, post-Free, shown-Free, ensure-Free, request-Free, commit_text-Free,
  commit_candidate-Free, clear_shown-Free, arm_pending_lem,
}

-- After a key of the free state, with at most `n` keys waiting.
abbrev pub Pressed : ℕ → Bool × Addon → Type 0
Pressed n r = Free n r.1 ⊎ Waiting n r.1

pub Free-le : (m n : ℕ) (s : Addon) → m ≤ n → Free m s → Free n s
unfolding Free
Free-le m n s h f = record {
  covered = f.covered;
  quiet = f.quiet;
  few = omega (arith, f.few, h);
  running = f.running;
}

pub stuck-Free : (n : ℕ) (s : Addon) → Free n s → s.stuck ≡ false
unfolding Free
stuck-Free n s f = f.running

module _ (x : Front) (n ic : ℕ) where
  capital-Free : (c : ℕ) (s : Addon) → Free n s → Free n (type_capital x ic c s)
  unfolding Free type_capital commit_string remember_trailing set_punct
  capital-Free c s f = f

  added-Free : (c : ℕ) (s : Addon) → Free n s → Free n (letter_added c s)
  unfolding Free letter_added
  added-Free c s f = f

  untried-Free : (b : Bool) (s : Addon) → Free n s → Free n (record s { recovery_tried = b })
  unfolding Free
  untried-Free b s f = f

  letter-Free : (c : ℕ) (s : Addon) → Free n s → Free n (type_letter x ic c s)
  unfolding type_letter
  letter-Free c s f =
      request-Free x n _ _
        (shown-Free x n ic _ (added-Free c _ (ensure-Free x n _ (untried-Free _ s f))))

  at_Free : (w v : ℕ) (s : Addon) → Free n s → Free n (record s { window_start = w; selected = v })
  unfolding Free
  at_Free w v s f = f

  moved-Free : (y : Sym) (s : Addon) → Free n s → Free n (arrow_move x y s)
  unfolding arrow_move
  moved-Free y s f =
      let page = page_size x in
      let w = s.window_start in
      if-both (Free n) (is_sym y left && ltb w s.selected) _ _ (at_Free w (s.selected - 1) s f) (
        if-both (Free n) (is_sym y right && ltb (s.selected + 1) (min (w + page) (length s.cands)))
          _ _ (at_Free w (s.selected + 1) s f)
          (if-both (Free n) (is_sym y up && ltb 0 w) _ _ (at_Free (w - page) (w - page) s f) (
            if-both (Free n) (is_sym y down && ltb (w + page) (length s.cands)) _ _
              (at_Free (w + page) (w + page) s f) f)))

  back-Free : (s : Addon) → Free n s → Free n (page_back x ic s)
  unfolding page_back
  back-Free s f = if-both (Free n) _ _ _ (shown-Free x n ic _ (at_Free _ _ s f)) f

  next-Free : (s : Addon) → Free n s → Free n (page_next x ic s)
  unfolding page_next
  next-Free s f = if-both (Free n) _ _ _ (shown-Free x n ic _ (at_Free _ _ s f)) f

  set_punct-Free : (g : Punct → Punct) (s : Addon) → Free n s → Free n (set_punct ic g s)
  unfolding set_punct Free
  set_punct-Free g s f = f

  punct_for-Free : (c : ℕ) (w : Bool) (s : Addon) → Free n s → Free n (punct_for ic c w s).1
  unfolding punct_for
  punct_for-Free c w s f =
      if-both (λ (r : List ℕ × Addon). Free n r.1) (not (is_quote c)) _ _ f
        (if-both (Free n) _ _ _ (set_punct-Free _ s f) f)

  said-Free :
      (t : List ℕ) (s : Addon) → Free n s → Free n (commit_string ic t (remember_trailing x ic t s))
  unfolding Free commit_string remember_trailing set_punct
  said-Free t s f = f

  punctuate-Free : (c : ℕ) (s : Addon) → Free n s → Free n (punctuate x ic c s).1
  unfolding punctuate
  punctuate-Free c s f =
      let p = punct_for ic c (fullwidth_punctuation x ic c (text_chosen s) s) s in
      let q = punct_for-Free c (fullwidth_punctuation x ic c (text_chosen s) s) s f in
      if-both (λ (r : Bool × Addon). Free n r.1) (is_nil p.0) _ _ q
        (commit_text-Free x n ic _ _
          (if-both (Free n) (can_choose s) _ _ (post-Free x n _ _ _ q) q))

  idle-Free : (c : ℕ) (s : Addon) → Free n s → Free n (punctuate_idle x ic c s).1
  unfolding punctuate_idle
  idle-Free c s f =
      if-both (λ (r : Bool × Addon). Free n r.1) (fullwidth_punctuation x ic c [] s) _ _
        (said-Free _ _ (punct_for-Free c true s f)) f

  digit-Free : (c : ℕ) (s : Addon) → Free n s → Free n (choose_digit x ic c s).1
  unfolding choose_digit
  digit-Free c s f =
      if-both (λ (r : Bool × Addon). Free n r.1) _ _ _ (commit_candidate-Free x n ic _ s f) f

  widened : (s : Addon) → Free 0 s ⊎ Waiting n s → Free n s ⊎ Waiting n s
  widened s (inl a) = inl (Free-le 0 n s (omega arith) a)
  widened s (inr b) = inr b

  space_lem : (s : Addon) → Free n s → Pressed n (press_space x ic s)
  unfolding press_space
  space_lem s f = elim (Bool-cases (is_nil s.buf)) [
    | inl e ↦ rw e (inl f)
    | inr t ↦ elim (Bool-cases (can_choose s)) [
      | inl c ↦ rw (t, c) (inl (commit_candidate-Free x n ic _ s f))
      | inr c ↦ rw (t, c) (widened (arm_pending x ic s) (arm_pending_lem x n ic s f t))
    ]
  ]

  shorter-Free : (s : Addon) → Free n s → Free n (shorter s)
  unfolding shorter Free
  shorter-Free s f = f

  dropped-Free : (s : Addon) → Free n s → Free n (drop_cands s)
  unfolding drop_cands Free
  dropped-Free s f = record { covered = refl; quiet = f.quiet; few = f.few; running = f.running }

  backspace-Free : (s : Addon) → Free n s → Free n (press_backspace x ic s).1
  unfolding press_backspace
  backspace-Free s f =
      let g = post-Free x n (codes "C") no_handler (shorter s) (shorter-Free s f) in
      if-both (λ (r : Bool × Addon). Free n r.1) (is_nil s.buf) _ _ f
        (if-both (λ (r : Bool × Addon). Free n r.1) _ _ _ (shown-Free x n ic _ (dropped-Free _ g))
          (shown-Free x n ic _ (request-Free x n _ _ g)))

  rest_lem : (y : Sym) (s : Addon) → Free n s → Pressed n (press_rest x ic y s)
  unfolding press_rest
  rest_lem y s f =
      if-both (Pressed n) (in_range b'1' b'9' y || (is_sym y (ascii b'0') && leb 10 (page_size x)))
        _ _ (inl (digit-Free (code_of y) s f))
        (if-both (Pressed n) (is_sym y (ascii b' ')) _ _ (space_lem s f) (
          if-both (Pressed n) (is_sym y enter && not (is_nil s.buf))
            (true, commit_text x ic s.buf s) _ (inl (commit_text-Free x n ic s.buf s f))
            (if-both (Pressed n) (is_sym y backspace) _ _ (inl (backspace-Free s f)) (
              if-both (Pressed n) (is_sym y escape && not (is_nil s.buf)) (true, clear_shown x ic s)
                (false, s)
                (inl (Free-le 0 n _ (omega arith) (clear_shown-Free x ic s (stuck-Free n s f))))
                (inl f)))))

  press_key_lem : (e : QueuedKey) (s : Addon) → Free n s → Pressed n (press_key x ic e s)
  unfolding press_key
  press_key_lem e s f =
      let y = e.key.sym in
      let composing = not (is_nil s.buf) in
      let c = code_of y in
      if-both (Pressed n) (not composing && in_range b'A' b'Z' y && e.raw.shift)
        (true, type_capital x ic c s) _ (inl (capital-Free c s f))
        (if-both (Pressed n) (in_range b'a' b'z' y || in_range b'A' b'Z' y)
          (true, type_letter x ic (lower c) s) _ (inl (letter-Free (lower c) s f))
          (if-both (Pressed n) (composing && can_choose s && is_arrow y)
            (true, update_ui x ic (arrow_move x y s)) _
            (inl (shown-Free x n ic _ (moved-Free y s f)))
            (if-both (Pressed n) (composing && (is_sym y (ascii b'-') || is_sym y page_up))
              (true, page_back x ic s) _ (inl (back-Free s f))
              (if-both (Pressed n) (composing && is_next y) (true, page_next x ic s) _
                (inl (next-Free s f))
                (if-both (Pressed n) (in_range 0 127 y && owns_punctuation c) _ _
                  (if-both (Pressed n) composing (punctuate x ic c s) (punctuate_idle x ic c s)
                    (inl (punctuate-Free c s f)) (inl (idle-Free c s f)))
                  (rest_lem y s f))))))

  paged-Free : (s : Addon) → Free n s → Free n (normalize_page x s).1
  unfolding normalize_page Free
  paged-Free s f = f

  page_shown-Free : (s : Addon) → Free n s → Free n (page_shown x ic s)
  unfolding page_shown
  page_shown-Free s f =
      if-both (Free n) _ _ _ (shown-Free x n ic _ (paged-Free s f)) (paged-Free s f)

  noted-Free : (y : Sym) (s : Addon) → Free n s → Free n (note_digit ic y s)
  unfolding note_digit
  noted-Free y s f = if-both (Free n) _ _ _ (set_punct-Free _ s f) f

  pub free_key_lem : (e : QueuedKey) (s : Addon) → Free n s → Pressed n (free_key x ic e s)
  unfolding free_key
  free_key_lem e s f =
      if-both (Pressed n) _ _ _ (inl f)
        (press_key_lem e _ (noted-Free e.key.sym _ (page_shown-Free s f)))
