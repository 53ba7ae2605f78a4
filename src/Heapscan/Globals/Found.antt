-- ===== src/Heapscan/Globals/Found.antt =====
-- What the scan of the global variables of scripts/mtrace2_heapscan.c finds in a segment.
use wetype_ime_linux.Base.{
  ℕ, zero, suc, ◌+◌, ◌-◌, ◌*◌, ◌≤◌, ◌<◌, ◌≡◌, refl, sym, ap, subst, ◌∙◌, ◌⊎◌, inl, inr, List, [],
  ◌∷◌, ◌++◌, some, true, false, ◌||◌, ◌==◌, ==_iff, ltb, leb, Bool-cases, All, All-append, length,
  length-append, get_elem?, arith,
}
use wetype_ime_linux.Daemon.Kept.{none-some, some_inj}
use wetype_ime_linux.Heapscan.{RegEnt, points_into}
use wetype_ime_linux.Heapscan.Locate.{IsSorted, IsDisjoint, points_into_lem}
use wetype_ime_linux.Heapscan.Owners.{is_inside, IsIn, All-IsIn}
use wetype_ime_linux.Heapscan.Globals.{
  Global, Range, first_word, words_in, max_globals, words_at, targets_at, segment_lines,
}

-- A line is among those written.
abbrev pub Has : Global → List Global → Type 0
Has l [] = ⊥
Has l (x ∷ xs) = (l ≡ x) ⊎ Has l xs

Has-left : (l : Global) (xs ys : List Global) → Has l xs → Has l (xs ++ ys)
Has-left l [] ys h = absurd h
Has-left l (x ∷ xs) ys (inl e) = inl e
Has-left l (x ∷ xs) ys (inr h) = inr (Has-left l xs ys h)

Has-right : (l : Global) (xs ys : List Global) → Has l ys → Has l (xs ++ ys)
Has-right l [] ys h = h
Has-right l (x ∷ xs) ys h = inr (Has-right l xs ys h)

pub true-false : ¬ (true ≡ false)
true-false h = subst (λ b. elim b as (λ _. Type 0) [ true ↦ Unit | false ↦ ⊥ ]) h tt

module _ (word : ℕ → ℕ) (arr : List RegEnt) where
  inside : (t : RegEnt) (v : ℕ) → points_into arr t v ≡ true → is_inside t v ≡ true
  unfolding points_into
  inside t v h = elim (Bool-cases (ltb v t.ptr || leb (t.ptr + t.size) v)) [
    | inl e ↦ absurd (true-false (sym (rw e at h)))
    | inr e ↦ ground (arith, e)
  ]

  -- Line `l` of segment `g` is so: it names a block of the size asked for, and the offset of one of the
  -- first `n` words from `gm`, which points into that block.
  pub record IsSo (size g gm n : ℕ) (l : Global) : Type 0 where
    pub same : l.seg ≡ g
    pub known : IsIn arr l.target
    pub sized : l.target.size ≡ size
    pub at_word : ℕ
    pub within : at_word < n
    pub place : l.off ≡ at_word * 8
    pub points : is_inside l.target (word (gm + at_word * 8)) ≡ true

  module _ (size g gm n : ℕ) where
    module _ (t : RegEnt) where
      length-words_at : (k w room : ℕ) → length (words_at word arr g gm t k w room) ≤ room
      unfolding words_at
      length-words_at zero w room = omega arith
      length-words_at (suc k) w zero = omega arith
      length-words_at (suc k) w (suc room) =
          elim (Bool-cases (points_into arr t (word (gm + w * 8)))) [
            | inl e ↦ rw e (omega (arith, length-words_at k (suc w) room))
            | inr e ↦ rw e (length-words_at k (suc w) (suc room))
          ]

      words_at-IsSo :
          (k w room : ℕ)
          → IsIn arr t
          → t.size ≡ size
          → w + k ≤ n
          → All (IsSo size g gm n) (words_at word arr g gm t k w room)
      unfolding words_at
      words_at-IsSo zero w room i z l = tt
      words_at-IsSo (suc k) w zero i z l = tt
      words_at-IsSo (suc k) w (suc room) i z l =
          elim (Bool-cases (points_into arr t (word (gm + w * 8)))) [
            | inl e ↦ rw e (
              record {
                same = refl;
                known = i;
                sized = z;
                at_word = w;
                within = omega (arith, l);
                place = refl;
                points = inside t (word (gm + w * 8)) e;
              },
              words_at-IsSo k (suc w) room i z (omega (arith, l)),
            )
            | inr e ↦ rw e (words_at-IsSo k (suc w) (suc room) i z (omega (arith, l)))
          ]

      words_at-Has :
          (k w room x : ℕ)
          → length (words_at word arr g gm t k w room) < room
          → w ≤ x
          → x < w + k
          → points_into arr t (word (gm + x * 8)) ≡ true
          → Has (record { seg = g; off = x * 8; target = t }) (words_at word arr g gm t k w room)
      unfolding words_at
      words_at-Has zero w room x s l m p = absurd (omega (arith, l, m))
      words_at-Has (suc k) w zero x s l m p = absurd (omega (arith, s))
      words_at-Has (suc k) w (suc room) x s l m p =
          elim (Bool-cases (points_into arr t (word (gm + w * 8)))) [
            | inl e ↦ elim (Bool-cases (x == w)) [
              | inl q ↦
                  rw e
                    (inl (ap (λ y. record { seg = g; off = y * 8; target = t }) ((==_iff x w).0 q)))
              | inr q ↦ rw e (
                  inr (
                    words_at-Has k (suc w) room x (omega (arith, rw e at s)) (ground (arith, l, q))
                      (omega (arith, m)) p))
            ]
            | inr e ↦ elim (Bool-cases (x == w)) [
              | inl q ↦ absurd (
                  true-false (
                    sym p ∙ ap (λ y. points_into arr t (word (gm + y * 8))) ((==_iff x w).0 q) ∙ e))
              | inr q ↦ rw e (
                  words_at-Has k (suc w) (suc room) x (rw e at s) (ground (arith, l, q))
                    (omega (arith, m)) p)
            ]
          ]

    length-targets_at :
        (k : ℕ) (ts : List RegEnt) (room : ℕ)
        → length (targets_at word arr size g gm k ts room) ≤ room
    unfolding targets_at
    length-targets_at k [] room = omega arith
    length-targets_at k (t ∷ ts) room = elim (Bool-cases (ltb 0 room)) [
      | inl z ↦ elim (Bool-cases (t.size == size)) [
        | inl e ↦
            let ls = words_at word arr g gm t k 0 room in
            rw (z, e, length-append ls (targets_at word arr size g gm k ts (room - length ls)))
              (omega (arith, length-words_at t k 0 room, length-targets_at k ts (room - length ls)))
        | inr e ↦ rw (z, e) (length-targets_at k ts room)
      ]
      | inr z ↦ rw z (omega arith)
    ]

    targets_at-IsSo :
        (k : ℕ) (ts : List RegEnt) (room : ℕ)
        → All (IsIn arr) ts
        → k ≤ n
        → All (IsSo size g gm n) (targets_at word arr size g gm k ts room)
    unfolding targets_at
    targets_at-IsSo k [] room h l = tt
    targets_at-IsSo k (t ∷ ts) room h l = elim (Bool-cases (ltb 0 room)) [
      | inl z ↦ elim (Bool-cases (t.size == size)) [
        | inl e ↦
            let ls = words_at word arr g gm t k 0 room in
            rw (z, e)
              (All-append (IsSo size g gm n) ls
                (targets_at word arr size g gm k ts (room - length ls))
                (words_at-IsSo t k 0 room h.0 ((==_iff t.size size).0 e) (omega (arith, l)))
                (targets_at-IsSo k ts (room - length ls) h.1 l))
        | inr e ↦ rw (z, e) (targets_at-IsSo k ts room h.1 l)
      ]
      | inr z ↦ rw z tt
    ]

    targets_at-Has :
        (k : ℕ) (ts : List RegEnt) (room : ℕ)
        → length (targets_at word arr size g gm k ts room) < room
        → (i : ℕ) (t : RegEnt) → get_elem? ts i ≡ some t
        → t.size ≡ size
        → (x : ℕ) → x < k
        → points_into arr t (word (gm + x * 8)) ≡ true
        → Has
            (record { seg = g; off = x * 8; target = t })
            (targets_at word arr size g gm k ts room)
    unfolding targets_at
    targets_at-Has k [] room s i t q z x m p = absurd (none-some q)
    targets_at-Has k (b ∷ ts) room s zero t q z x m p =
        let r : 0 < room = omega (arith, s) in
        let on : ltb 0 room ≡ true = ground (arith, r) in
        let ls = words_at word arr g gm b k 0 room in
        let more = targets_at word arr size g gm k ts (room - length ls) in
        let same : b ≡ t = some_inj q in
        let e : (b.size == size) ≡ true =
          (==_iff b.size size).1 (ap (λ (y : RegEnt). y.size) same ∙ z) in
        let sum : length ls + length more < room =
          subst (λ y. y < room) (length-append ls more) (rw (on, e) at s) in
        rw (on, e)
          (subst (λ y. Has (record { seg = g; off = x * 8; target = y }) (ls ++ more)) same
            (Has-left (record { seg = g; off = x * 8; target = b }) ls more
              (words_at-Has b k 0 room x (omega (arith, sum)) (omega arith) (omega (arith, m))
                (ap (λ y. points_into arr y (word (gm + x * 8))) same ∙ p))))
    targets_at-Has k (b ∷ ts) room s (suc i) t q z x m p =
        let r : 0 < room = omega (arith, s) in
        let on : ltb 0 room ≡ true = ground (arith, r) in
        let ls = words_at word arr g gm b k 0 room in
        let more = targets_at word arr size g gm k ts (room - length ls) in
        elim (Bool-cases (b.size == size)) [
          | inl e ↦
              let sum : length ls + length more < room =
                subst (λ y. y < room) (length-append ls more) (rw (on, e) at s) in
              rw (on, e)
                (Has-right (record { seg = g; off = x * 8; target = t }) ls more
                  (targets_at-Has k ts (room - length ls) (omega (arith, sum)) i t q z x m p))
          | inr e ↦ rw (on, e) (targets_at-Has k ts room (rw (on, e) at s) i t q z x m p)
        ]

  -- The scan of a segment for blocks of a size, with the blocks sorted and apart, writes at most 40
  -- lines; each names a block of that size and a word of the segment that points into it, and unless
  -- there are 40 lines, every such word is reported for its block.
  pub segment_lines_lem :
      (size g : ℕ) (r : Range)
      → IsSorted arr
      → IsDisjoint arr
      → (length (segment_lines word arr size g r) ≤ max_globals)
        × All (IsSo size g (first_word r) (words_in r)) (segment_lines word arr size g r)
        × (length (segment_lines word arr size g r) < max_globals
            → (t : RegEnt) → IsIn arr t
            → t.size ≡ size
            → (x : ℕ) → x < words_in r
            → is_inside t (word (first_word r + x * 8)) ≡ true
            → Has (record { seg = g; off = x * 8; target = t }) (segment_lines word arr size g r))
  unfolding segment_lines
  segment_lines_lem size g r sorted apart =
      let gm = first_word r in
      let n = words_in r in
      (
        length-targets_at size g gm n n arr max_globals,
        targets_at-IsSo size g gm n n arr max_globals (All-IsIn arr) (omega arith),
        λ s t i z x m p.
            targets_at-Has size g gm n n arr max_globals s i.0 t i.1 z x m
              (points_into_lem arr i.0 (word (gm + x * 8)) t sorted apart i.1 ∙ p),
      )
