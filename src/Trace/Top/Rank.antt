-- ===== src/Trace/Top/Rank.antt =====
-- The ranking of the sites in `dump` of harness/malloc_trace.c: what a round keeps.
use wetype_ime_linux.Base.{
  ℕ, zero, suc, ◌≤◌, ◌<◌, ◌≡◌, refl, sym, subst, ◌⊎◌, inl, inr, List, [], ◌∷◌, ltb, Bool-cases, All,
  length, take, length-take, arith,
}
use wetype_ime_linux.Trace.Top.{rank}

abbrev pub In : ℕ → List ℕ → Type 0
In j [] = ⊥
In j (x ∷ xs) = (j ≡ x) ⊎ In j xs

-- What is left of a list was in it.
of_take : (j n : ℕ) (ys : List ℕ) → In j (take n ys) → In j ys
of_take j zero ys q = absurd q
of_take j (suc n) [] q = absurd q
of_take j (suc n) (y ∷ ys) (inl q) = inl q
of_take j (suc n) (y ∷ ys) (inr q) = inr (of_take j n ys q)

module _ (bytes : ℕ → ℕ) where
  -- From the most bytes down.
  abbrev pub Falls : List ℕ → Type 0
  Falls [] = Unit
  Falls (x ∷ xs) = All (λ y. bytes y ≤ bytes x) xs × Falls xs

  -- So many bytes beat none of the slots, `room` in all: a slot without a site counts as 0.
  abbrev pub Beaten : ℕ → ℕ → List ℕ → Type 0
  Beaten b zero xs = Unit
  Beaten b (suc room) [] = b ≡ 0
  Beaten b (suc room) (x ∷ xs) = (b ≤ bytes x) × Beaten b room xs

  Beaten-take : (b room : ℕ) (xs : List ℕ) → Beaten b (suc room) xs → Beaten b room (take room xs)
  Beaten-take b zero xs h = tt
  Beaten-take b (suc room) [] h = h
  Beaten-take b (suc room) (x ∷ xs) h = (h.0, Beaten-take b room xs h.1)

  All-take :
      (b : ℕ) (n : ℕ) (xs : List ℕ) → All (λ y. bytes y ≤ b) xs → All (λ y. bytes y ≤ b) (take n xs)
  All-take b zero xs h = tt
  All-take b (suc n) [] h = tt
  All-take b (suc n) (x ∷ xs) h = (h.0, All-take b n xs h.1)

  Falls-take : (n : ℕ) (xs : List ℕ) → Falls xs → Falls (take n xs)
  Falls-take zero xs h = tt
  Falls-take (suc n) [] h = tt
  Falls-take (suc n) (x ∷ xs) h = (All-take (bytes x) n xs h.0, Falls-take n xs h.1)

  All-le : (a b : ℕ) (xs : List ℕ) → a ≤ b → All (λ y. bytes y ≤ a) xs → All (λ y. bytes y ≤ b) xs
  All-le a b [] l h = tt
  All-le a b (x ∷ xs) l h = (omega (arith, l, h.0), All-le a b xs l h.1)

  In-le : (b j : ℕ) (xs : List ℕ) → All (λ y. bytes y ≤ b) xs → In j xs → bytes j ≤ b
  In-le b j [] h i = absurd i
  In-le b j (x ∷ xs) h (inl e) = subst (λ z. bytes z ≤ b) (sym e) h.0
  In-le b j (x ∷ xs) h (inr i) = In-le b j xs h.1 i

  -- What the end of the list loses is beaten by what stays.
  In-take :
      (j n : ℕ) (xs : List ℕ)
      → Falls xs
      → In j xs
      → In j (take n xs) ⊎ Beaten (bytes j) n (take n xs)
  In-take j zero xs f i = inr tt
  In-take j (suc n) [] f i = absurd i
  In-take j (suc n) (x ∷ xs) f (inl e) = inl (inl e)
  In-take j (suc n) (x ∷ xs) f (inr i) = elim (In-take j n xs f.1 i) [
    | inl here ↦ inl (inr here)
    | inr out ↦ inr (In-le (bytes x) j xs f.0 i, out)
  ]

  All-rank :
      (b i room : ℕ) (xs : List ℕ)
      → bytes i ≤ b
      → All (λ y. bytes y ≤ b) xs
      → All (λ y. bytes y ≤ b) (rank bytes i room xs)
  unfolding rank
  All-rank b i zero xs l h = tt
  All-rank b i (suc room) [] l h = elim (Bool-cases (ltb 0 (bytes i))) [
    | inl e ↦ rw e (l, tt)
    | inr e ↦ rw e tt
  ]
  All-rank b i (suc room) (x ∷ xs) l h = elim (Bool-cases (ltb (bytes x) (bytes i))) [
    | inl e ↦ rw e (l, All-take b room (x ∷ xs) h)
    | inr e ↦ rw e (h.0, All-rank b i room xs l h.1)
  ]

  pub Falls-rank : (i room : ℕ) (xs : List ℕ) → Falls xs → Falls (rank bytes i room xs)
  unfolding rank
  Falls-rank i zero xs f = tt
  Falls-rank i (suc room) [] f = elim (Bool-cases (ltb 0 (bytes i))) [
    | inl e ↦ rw e (tt, tt)
    | inr e ↦ rw e tt
  ]
  Falls-rank i (suc room) (x ∷ xs) f = elim (Bool-cases (ltb (bytes x) (bytes i))) [
    | inl e ↦
        let l : bytes x ≤ bytes i = ground (arith, e) in
        rw e (
          All-take (bytes i) room (x ∷ xs) (l, All-le (bytes x) (bytes i) xs l f.0),
          Falls-take room (x ∷ xs) f,
        )
    | inr e ↦ rw e (All-rank (bytes x) i room xs (ground (arith, e)) f.0, Falls-rank i room xs f.1)
  ]

  pub Beaten-rank :
      (b i room : ℕ) (xs : List ℕ) → Beaten b room xs → Beaten b room (rank bytes i room xs)
  unfolding rank
  Beaten-rank b i zero xs h = tt
  Beaten-rank b i (suc room) [] h = elim (Bool-cases (ltb 0 (bytes i))) [
    | inl e ↦ rw e (omega (arith, h), nothing room)
    | inr e ↦ rw e h
  ]
    where
      nothing : (r : ℕ) → Beaten b r []
      nothing zero = tt
      nothing (suc r) = h
  Beaten-rank b i (suc room) (x ∷ xs) h = elim (Bool-cases (ltb (bytes x) (bytes i))) [
    | inl e ↦ rw e (ground (arith, e, h.0), Beaten-take b room (x ∷ xs) h)
    | inr e ↦ rw e (h.0, Beaten-rank b i room xs h.1)
  ]

  -- A site that is ranked is shown, or beaten by those shown.
  pub rank_self :
      (i room : ℕ) (xs : List ℕ)
      → In i (rank bytes i room xs) ⊎ Beaten (bytes i) room (rank bytes i room xs)
  unfolding rank
  rank_self i zero xs = inr tt
  rank_self i (suc room) [] = elim (Bool-cases (ltb 0 (bytes i))) [
    | inl e ↦ rw e (inl (inl refl))
    | inr e ↦ rw e (inr (ground (arith, e)))
  ]
  rank_self i (suc room) (x ∷ xs) = elim (Bool-cases (ltb (bytes x) (bytes i))) [
    | inl e ↦ rw e (inl (inl refl))
    | inr e ↦ rw e (elim (rank_self i room xs) [
      | inl here ↦ inl (inr here)
      | inr out ↦ inr (ground (arith, e), out)
    ])
  ]

  -- A site shown before stays, or is beaten by those shown now.
  pub rank_old :
      (i j room : ℕ) (xs : List ℕ)
      → Falls xs
      → In j xs
      → In j (rank bytes i room xs) ⊎ Beaten (bytes j) room (rank bytes i room xs)
  unfolding rank
  rank_old i j zero xs f h = inr tt
  rank_old i j (suc room) [] f h = absurd h
  rank_old i j (suc room) (x ∷ xs) f h = elim (Bool-cases (ltb (bytes x) (bytes i))) [
    | inl e ↦
        let l : bytes x ≤ bytes i = ground (arith, e) in
        rw e (elim (In-take j room (x ∷ xs) f h) [
          | inl here ↦ inl (inr here)
          | inr out ↦
              inr (In-le (bytes i) j (x ∷ xs) (l, All-le (bytes x) (bytes i) xs l f.0) h, out)
        ])
    | inr e ↦ rw e (kept (rank_old i j room xs f.1) h)
  ]
    where
      kept :
          (In j xs → In j (rank bytes i room xs) ⊎ Beaten (bytes j) room (rank bytes i room xs))
          → In j (x ∷ xs)
          → In j (x ∷ rank bytes i room xs)
            ⊎ (bytes j ≤ bytes x) × Beaten (bytes j) room (rank bytes i room xs)
      kept ih (inl q) = inl (inl q)
      kept ih (inr q) = elim (ih q) [
        | inl here ↦ inl (inr here)
        | inr out ↦ inr (In-le (bytes x) j xs f.0 q, out)
      ]

  pub length-rank : (i room : ℕ) (xs : List ℕ) → length (rank bytes i room xs) ≤ room
  unfolding rank
  length-rank i zero xs = omega arith
  length-rank i (suc room) [] = ground arith
  length-rank i (suc room) (x ∷ xs) =
      ground (arith, length-rank i room xs, length-take room (x ∷ xs))

  -- What is shown is a site ranked, or was shown before, and holds some bytes.
  pub rank-In :
      (i j room : ℕ) (xs : List ℕ)
      → In j (rank bytes i room xs)
      → ((j ≡ i) × (0 < bytes i)) ⊎ In j xs
  unfolding rank
  rank-In i j zero xs h = absurd h
  rank-In i j (suc room) [] h = elim (Bool-cases (ltb 0 (bytes i))) [
    | inl e ↦ inl (alone (rw e at h), ground (arith, e))
    | inr e ↦ absurd (rw e at h)
  ]
    where
      alone : In j (i ∷ []) → j ≡ i
      alone (inl q) = q
      alone (inr q) = absurd q
  rank-In i j (suc room) (x ∷ xs) h = elim (Bool-cases (ltb (bytes x) (bytes i))) [
    | inl e ↦ front (ground (arith, e)) (rw e at h)
    | inr e ↦ back (rank-In i j room xs) (rw e at h)
  ]
    where
      front :
          0 < bytes i → In j (i ∷ take room (x ∷ xs)) → ((j ≡ i) × (0 < bytes i)) ⊎ In j (x ∷ xs)
      front z (inl q) = inl (q, z)
      front z (inr q) = inr (of_take j room (x ∷ xs) q)

      back :
          (In j (rank bytes i room xs) → ((j ≡ i) × (0 < bytes i)) ⊎ In j xs)
          → In j (x ∷ rank bytes i room xs)
          → ((j ≡ i) × (0 < bytes i)) ⊎ In j (x ∷ xs)
      back ih (inl q) = inr (inl q)
      back ih (inr q) = elim (ih q) [ inl a ↦ inl a | inr b ↦ inr (inr b) ]

-- No site stands twice.
abbrev pub Apart : List ℕ → Type 0
Apart [] = Unit
Apart (x ∷ xs) = ¬ In x xs × Apart xs

Apart-take : (n : ℕ) (xs : List ℕ) → Apart xs → Apart (take n xs)
Apart-take zero xs a = tt
Apart-take (suc n) [] a = tt
Apart-take (suc n) (x ∷ xs) a = (λ q. a.0 (of_take x n xs q), Apart-take n xs a.1)

-- A new site does not stand twice after its round.
pub Apart-rank :
    (bytes : ℕ → ℕ) (i room : ℕ) (xs : List ℕ) → ¬ In i xs → Apart xs → Apart (rank bytes i room xs)
unfolding rank
Apart-rank bytes i zero xs new a = tt
Apart-rank bytes i (suc room) [] new a = elim (Bool-cases (ltb 0 (bytes i))) [
  | inl e ↦ rw e (λ q. q, tt)
  | inr e ↦ rw e tt
]
Apart-rank bytes i (suc room) (x ∷ xs) new a = elim (Bool-cases (ltb (bytes x) (bytes i))) [
  | inl e ↦ rw e (λ q. new (of_take i room (x ∷ xs) q), Apart-take room (x ∷ xs) a)
  | inr e ↦ rw e (
    λ q. elim (rank-In bytes i x room xs q) [
      | inl (same, z) ↦ new (inl (sym same))
      | inr old ↦ a.0 old
    ],
    Apart-rank bytes i room xs (λ q. new (inr q)) a.1,
  )
]
