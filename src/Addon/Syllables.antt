-- ===== src/Addon/Syllables.antt =====
-- What the split preedit shows.
use wetype_ime_linux.Base.{
  ℕ, zero, suc, ◌≤◌, List, [], ◌∷◌, ◌++◌, false, ◌==◌, ◌≡◌, ◌||◌, refl, length, take, drop, min,
  sym, arith, Bool-cases, Option-cases, inl, inr, take-append-drop, length-drop, if◌then◌else◌,
}
use mathlib.Core.List.{append_assoc, append-nil}
use wetype_ime_linux.Addon.Punctuation.{back}
use wetype_ime_linux.Addon.Segment.{segment, segment_pinyin, spaced, longest, syllables}

-- The text without its spaces.
unfoldable pub unspaced : List ℕ → List ℕ
unspaced [] = []
unspaced (c ∷ cs) = let rest = unspaced cs in if c == b' ' then rest else c ∷ rest

unspaced-append : (xs ys : List ℕ) → unspaced (xs ++ ys) ≡ unspaced xs ++ unspaced ys
unfolding unspaced
unspaced-append [] ys = refl
unspaced-append (x ∷ xs) ys = elim (Bool-cases (x == b' ')) [
  | inl e ↦ rw (e, unspaced-append xs ys) refl
  | inr e ↦ rw (e, unspaced-append xs ys) refl
]

spaced_lem : (out : List ℕ) → unspaced (spaced out) ≡ unspaced out
unfolding spaced unspaced
spaced_lem out = elim (Option-cases (back out)) [
  | inl e ↦ rw (spaced, e) refl
  | inr (c, e) ↦ elim (Bool-cases ((c == b'\'') || (c == b' '))) [
    | inl t ↦ rw (spaced, e, t) refl
    | inr f ↦
        rw (spaced, e, f, unspaced-append out (b' ' ∷ []), unspaced, append-nil (unspaced out)) refl
  ]
]

piece_lem :
    (out taken left : List ℕ)
    → unspaced (spaced out ++ taken) ++ unspaced left ≡ unspaced out ++ unspaced (taken ++ left)
piece_lem out taken left =
    rw
      (
        unspaced-append (spaced out) taken,
        spaced_lem out,
        unspaced-append taken left,
        append_assoc (unspaced out) (unspaced taken) (unspaced left),
      )
      refl

positive : {n : ℕ} → suc n ≤ 0 → ⊥
positive h = omega arith

fewer_lem :
    (m c : ℕ) (cs : List ℕ) (fuel : ℕ)
    → (m == 0) ≡ false
    → length (c ∷ cs) ≤ suc fuel
    → length (drop m (c ∷ cs)) ≤ fuel
fewer_lem zero c cs fuel p h = ground arith
fewer_lem (suc m) c cs fuel p h = omega (arith, length-drop m cs)

segment-unspaced :
    (dict : List (List ℕ)) (fuel : ℕ) (out raw : List ℕ)
    → length raw ≤ fuel
    → unspaced (segment dict fuel out raw) ≡ unspaced out ++ unspaced raw
unfolding segment unspaced
segment-unspaced dict zero out [] h = sym (append-nil (unspaced out))
segment-unspaced dict zero out (c ∷ cs) h = absurd (positive h)
segment-unspaced dict (suc fuel) out [] h = sym (append-nil (unspaced out))
segment-unspaced dict (suc fuel) out (c ∷ cs) h =
    let m = longest dict (min (length (c ∷ cs)) 6) (c ∷ cs) in
    elim (Bool-cases (c == b'\'')) [
      | inl q ↦
          rw
            (
              q,
              segment-unspaced dict fuel (out ++ c ∷ []) cs (omega arith),
              unspaced-append out (c ∷ []),
              append_assoc (unspaced out) (unspaced (c ∷ [])) (unspaced cs),
              sym (unspaced-append (c ∷ []) cs),
            )
            refl
      | inr n ↦ elim (Bool-cases (m == 0)) [
        | inl z ↦ rw (n, z, unspaced-append (spaced out) (c ∷ cs), spaced_lem out) refl
        | inr p ↦
            rw
              (
                n,
                p,
                segment-unspaced dict fuel (spaced out ++ take m (c ∷ cs)) (drop m (c ∷ cs))
                    (fewer_lem m c cs fuel p h),
                piece_lem out (take m (c ∷ cs)) (drop m (c ∷ cs)),
                take-append-drop m (c ∷ cs),
              )
              refl
      ]
    ]

-- Splitting the pinyin into syllables only adds spaces: without spaces, what the preedit shows is
-- what was typed, whatever was typed.
pub segment_pinyin-unspaced : (raw : List ℕ) → unspaced (segment_pinyin raw) ≡ unspaced raw
unfolding segment_pinyin unspaced
segment_pinyin-unspaced raw = segment-unspaced syllables (length raw) [] raw (omega arith)
