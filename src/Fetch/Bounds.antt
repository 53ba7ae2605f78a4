-- ===== src/Fetch/Bounds.antt =====
-- The bounds of `daemon_fetch_cands` of harness/jinterop.c: its arrays have room, and the search for
-- repeated pointers misses none.
use wetype_ime_linux.Base.{
  ℕ, ◌+◌, ◌≤◌, ◌<◌, ◌≡◌, sym, subst, List, [], ◌∷◌, ◌++◌, false, ◌==◌, Bool-cases, inl, inr, length,
  All, length-append, arith,
}
use mathlib.Core.List.{Mem, Nodup, Nodup-nil, Nodup-cons, mem-cons, mem-append, not-mem-nil}
use mathlib.Core.List.{mem-cons_self}
use mathlib.Core.Logic.Or
use mathlib.Core.HLevel.{¬_prop}
use wetype_ime_linux.Memory.{Mem as Memory}
use wetype_ime_linux.Fetch.{Choice, seen_before, has_dup, seen_size}

-- A text that a buffer of 256 bytes holds, and that is not empty.
abbrev pub AreTexts : List Choice → Type 0
AreTexts = All (λ (c : Choice). (0 < length c.text) × (length c.text < 256))

seen_before-Mem : (p : ℕ) (qs : List ℕ) → seen_before p qs ≡ false → ¬ Mem p qs
unfolding seen_before
seen_before-Mem p [] h = λ i. not-mem-nil i
seen_before-Mem p (q ∷ qs) h = elim (Bool-cases (q == p)) [
  | inl e ↦ absurd (ground (arith, e, h))
  | inr e ↦
      let rest : seen_before p qs ≡ false = ground (arith, e, h) in
      λ i.
        Or.elim (λ x y. absurd x) (mem-cons.0 i) (λ eq. ground (arith, e, eq))
          (λ j. seen_before-Mem p qs rest j)
]

-- What a search without a find says, with the pointers seen before it.
record Apart (seen ps : List ℕ) : Type 0 where
  nodup : Nodup ps
  new : (p : ℕ) → Mem p ps → ¬ Mem p seen

has_dup-Apart :
    (seen ps : List ℕ)
    → length seen + length ps ≤ seen_size
    → has_dup seen ps ≡ false
    → Apart seen ps
unfolding has_dup
has_dup-Apart seen [] room h = record { nodup = Nodup-nil; new = λ p i. absurd (not-mem-nil i) }
has_dup-Apart seen (p ∷ ps) room h = elim (Bool-cases (seen_before p seen)) [
  | inl e ↦ absurd (ground (arith, e, h))
  | inr e ↦
      let size = length-append seen (p ∷ []) in
      let later : has_dup (seen ++ p ∷ []) ps ≡ false = ground (arith, e, h, room) in
      let i = has_dup-Apart (seen ++ p ∷ []) ps (omega (arith, room, size)) later in
      record {
        nodup = Nodup-cons.1 (λ j. i.new p j (mem-append.1 (Or.inr mem-cons_self)), i.nodup);
        new = λ q j.
            Or.elim ¬_prop (mem-cons.0 j)
              (λ eq. subst (λ x. ¬ Mem x seen) (sym eq) (seen_before-Mem p seen e))
              (λ k s. i.new q k (mem-append.1 (Or.inl s)));
      }
]

-- While there are at most 79 pointers, and pages of at most ten candidates have no more, a search
-- that finds no repetition means that there is none: nothing is released twice.
pub has_dup_lem : (ps : List ℕ) → length ps ≤ seen_size → has_dup [] ps ≡ false → Nodup ps
has_dup_lem ps room h = (has_dup-Apart [] ps (omega (arith, room)) h).nodup
