-- ===== src/Addon/Symbols.antt =====
-- What the punctuation keys produce, and the digit before them.
use wetype_ime_linux.Base.{
  ℕ, List, [], ◌∷◌, ◌++◌, none, some, Bool, true, false, not, ◌&&◌, ◌||◌, ◌==◌, ◌≡◌, ◌⊎◌, refl, sym,
  ap, ◌∙◌, length, All, Bool-cases, Option-cases, inl, inr, arith, if◌then◌else◌, ==_iff, str_eqb,
  str_eqb→eq, subst,
}
use wetype_ime_linux.Daemon.Kept.{none-some, some_inj}
use wetype_ime_linux.Addon.Punctuation.{
  punctuation, ends_with_digit, is_digit_codepoint, Glyph, glyphs, glyph_of, glyph_text,
  owns_punctuation, is_quote, is_nil, trim_blank, is_blank, back,
}
use wetype_ime_linux.Addon.State.{Addon, punct_for, set_punct, flip_pair, pair_opens}

-- The narrow form of a key.
unfoldable pub narrow_of : ℕ → List ℕ
narrow_of k = if k == b'\\' then [] else k ∷ []

is_glyph : Glyph → Bool
is_glyph g = (length g.wide == 3) && (length g.closing == 3) && str_eqb g.narrow (narrow_of g.key)

are_glyphs : List Glyph → Bool
are_glyphs [] = true
are_glyphs (g ∷ gs) = is_glyph g && are_glyphs gs

glyphs_lem : are_glyphs glyphs ≡ true
unfolding glyphs are_glyphs is_glyph narrow_of str_eqb
glyphs_lem = refl

first_of : (a b : Bool) → (a && b) ≡ true → (a ≡ true) × (b ≡ true)
first_of a b h = ground (arith, h)

found :
    (gs : List Glyph) (k : ℕ) (g : Glyph)
    → are_glyphs gs ≡ true
    → glyph_of gs k ≡ some g
    → (is_glyph g ≡ true) × (g.key ≡ k)
unfolding glyph_of are_glyphs
found [] k g a h = absurd (none-some h)
found (f ∷ gs) k g a h = elim (Bool-cases (f.key == k)) [
  | inl e ↦
      let q : glyph_of (f ∷ gs) k ≡ some f = rw (glyph_of, e) refl in
      subst (λ (r : Glyph). (is_glyph r ≡ true) × (r.key ≡ k)) (some_inj (sym q ∙ h))
        ((first_of (is_glyph f) (are_glyphs gs) a).0, (==_iff f.key k).0 e)
  | inr n ↦
      let q : glyph_of (f ∷ gs) k ≡ glyph_of gs k = rw (glyph_of, n) refl in
      found gs k g (first_of (is_glyph f) (are_glyphs gs) a).1 (sym q ∙ h)
]

texts_of :
    (g : Glyph)
    → is_glyph g ≡ true
    → (length g.wide ≡ 3) × (length g.closing ≡ 3) × (g.narrow ≡ narrow_of g.key)
unfolding is_glyph
texts_of g h =
    let w = length g.wide == 3 in
    let c = length g.closing == 3 in
    let n = str_eqb g.narrow (narrow_of g.key) in
    let (both, narrow) = first_of (w && c) n h in
    let (wide, closing) = first_of w c both in
    (
      (==_iff (length g.wide) 3).0 wide,
      (==_iff (length g.closing) 3).0 closing,
      str_eqb→eq g.narrow (narrow_of g.key) narrow,
    )

-- Every key of the Chinese input state has one wide character of three bytes, whichever side of a pair
-- comes next, and its narrow form is the key itself, but nothing for the backslash.
pub owns_punctuation_lem :
    (k : ℕ) (opening : Bool)
    → owns_punctuation k ≡ true
    → (length (punctuation k true opening) ≡ 3) × (punctuation k false opening ≡ narrow_of k)
unfolding owns_punctuation punctuation
owns_punctuation_lem k opening h = elim (Option-cases (glyph_of glyphs k)) [
  | inl e ↦
      let q : owns_punctuation k ≡ false = rw (owns_punctuation, punctuation, e) refl in
      absurd (ground (arith, sym q ∙ h))
  | inr (g, e) ↦
      let (good, key) = found glyphs k g glyphs_lem e in
      let (wide, closing, narrow) = texts_of g good in
      rw (punctuation, e) (side opening g wide closing, narrow ∙ ap narrow_of key)
]
  where
    side :
        (o : Bool) (g : Glyph)
        → length g.wide ≡ 3
        → length g.closing ≡ 3
        → length (glyph_text g true o) ≡ 3
    side true g a b = a
    side false g a b = b

blank_back : (t : List ℕ) (d : ℕ) → back (t ++ d ∷ []) ≡ some d
blank_back [] d = refl
blank_back (x ∷ []) d = refl
blank_back (x ∷ y ∷ t) d = blank_back (y ∷ t) d

trim_blank-All : (bs : List ℕ) → All (λ b. is_blank b ≡ true) bs → trim_blank bs ≡ []
unfolding trim_blank
trim_blank-All [] a = refl
trim_blank-All (b ∷ bs) (h, a) = rw (trim_blank-All bs a, h) refl

not_nil : (t : List ℕ) (d : ℕ) → is_nil (t ++ d ∷ []) ≡ false
not_nil [] d = refl
not_nil (x ∷ t) d = refl

trim_lem :
    (t : List ℕ) (d : ℕ) (bs : List ℕ)
    → is_blank d ≡ false
    → All (λ b. is_blank b ≡ true) bs
    → trim_blank (t ++ d ∷ bs) ≡ t ++ d ∷ []
unfolding trim_blank
trim_lem [] d bs h a = rw (trim_blank-All bs a, h) refl
trim_lem (c ∷ t) d bs h a = rw (trim_lem t d bs h a, not_nil t d) refl

-- Whether a number stands before the cursor does not depend on the blanks after it: the last other byte
-- decides, if the text before the blanks is valid.
pub ends_with_digit_lem :
    (valid : List ℕ → Bool) (t : List ℕ) (d : ℕ) (bs : List ℕ)
    → is_blank d ≡ false
    → All (λ b. is_blank b ≡ true) bs
    → ends_with_digit valid (t ++ d ∷ bs) ≡ (valid (t ++ d ∷ []) && is_digit_codepoint d)
unfolding ends_with_digit
ends_with_digit_lem valid t d bs h a =
    let judge : List ℕ → Bool =
      λ u. elim (back u) [ none ↦ false | some c ↦ valid u && is_digit_codepoint c ] in
    ap judge (trim_lem t d bs h a) ∙ rw (blank_back t d) refl

quote_cases : (k : ℕ) → is_quote k ≡ true → (k ≡ b'"') ⊎ (k ≡ b'\'')
unfolding is_quote
quote_cases k h = ground (arith, h)

quote_is_wide : (k : ℕ) (o : Bool) → is_quote k ≡ true → is_nil (punctuation k true o) ≡ false
unfolding punctuation glyphs glyph_of
quote_is_wide k o h = elim (quote_cases k h) [
  | inl e ↦ subst (λ c. is_nil (punctuation c true o) ≡ false) (sym e) (shape_d o)
  | inr e ↦ subst (λ c. is_nil (punctuation c true o) ≡ false) (sym e) (shape_s o)
]
  where
    shape_d : (o : Bool) → is_nil (punctuation b'"' true o) ≡ false
    shape_d true = refl
    shape_d false = refl

    shape_s : (o : Bool) → is_nil (punctuation b'\'' true o) ≡ false
    shape_s true = refl
    shape_s false = refl

-- Typing a quote key gives its wide form, opening and closing in turn, and only a wide quote turns the
-- pair; any other key leaves both pairs, and the other contexts are never touched.
pub punct_for_lem :
    (ic key : ℕ) (wide : Bool) (s : Addon) (other : ℕ)
    → let (text, s') = punct_for ic key wide s in
      (text ≡ punctuation key wide (not (is_quote key) || pair_opens key (s.puncts ic)))
      × (s'.puncts other ≡ (
          if is_quote key && wide && (other == ic)
          then flip_pair key (s.puncts other)
          else s.puncts other))
unfolding punct_for set_punct
punct_for_lem ic key wide s other = elim (Bool-cases (is_quote key)) [
  | inr n ↦ rw n (refl, refl)
  | inl q ↦ elim (Bool-cases wide) [
    | inl w ↦ rw (q, w, quote_is_wide key (pair_opens key (s.puncts ic)) q) (refl, refl)
    | inr w ↦ rw (q, w) (refl, refl)
  ]
]
