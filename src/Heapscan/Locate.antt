-- ===== src/Heapscan/Locate.antt =====
-- The binary search of scripts/mtrace2_heapscan.c for the block that an address lies in.
use wetype_ime_linux.Base.{
  ℕ, zero, suc, ◌+◌, ◌-◌, ◌/◌, ◌≤◌, ◌<◌, ◌≡◌, refl, sym, ap, ◌∙◌, inl, inr, List, Option, none,
  some, false, ◌&&◌, ◌||◌, ◌==◌, ==_iff, ltb, leb, Bool-cases, length, get_elem?, get_elem?-some,
  get_elem?_lt, arith,
}
use wetype_ime_linux.Daemon.Kept.{some_inj}
use wetype_ime_linux.Heapscan.{RegEnt, locate_from, locate, points_into}

-- The blocks in the order of their addresses.
abbrev pub IsSorted : List RegEnt → Type 0
IsSorted arr =
    (i j : ℕ) (d e : RegEnt)
    → get_elem? arr i ≡ some d
    → get_elem? arr j ≡ some e
    → i ≤ j
    → d.ptr ≤ e.ptr

-- The first `c` blocks begin at `v` or before, the others after it.
pub record IsSplit (arr : List RegEnt) (v c : ℕ) : Type 0 where
  pub inside : c ≤ length arr
  pub below : (i : ℕ) (e : RegEnt) → i < c → get_elem? arr i ≡ some e → e.ptr ≤ v
  pub above : (i : ℕ) (e : RegEnt) → c ≤ i → get_elem? arr i ≡ some e → v < e.ptr

-- The last of the first `c` blocks.
abbrev pub last_of : ℕ → Option ℕ
last_of zero = none
last_of (suc c) = some c

record Inv (arr : List RegEnt) (v lo hi : ℕ) : Type 0 where
  ordered : lo ≤ hi
  inside : hi ≤ length arr
  below : (i : ℕ) (e : RegEnt) → i < lo → get_elem? arr i ≡ some e → e.ptr ≤ v
  above : (i : ℕ) (e : RegEnt) → hi ≤ i → get_elem? arr i ≡ some e → v < e.ptr

module _ (arr : List RegEnt) (v : ℕ) (sorted : IsSorted arr) where
  right-Inv :
      (lo hi mid : ℕ) (e : RegEnt)
      → Inv arr v lo hi
      → mid < hi
      → get_elem? arr mid ≡ some e
      → e.ptr ≤ v
      → Inv arr v (suc mid) hi
  right-Inv lo hi mid e inv h at l = record {
    ordered = omega (arith, h);
    inside = inv.inside;
    below = λ i d p q. let s = sorted i mid d e q at (omega (arith, p)) in omega (arith, s, l);
    above = inv.above;
  }

  left-Inv :
      (lo hi mid : ℕ) (e : RegEnt)
      → Inv arr v lo hi
      → lo ≤ mid
      → mid < hi
      → get_elem? arr mid ≡ some e
      → v < e.ptr
      → Inv arr v lo mid
  left-Inv lo hi mid e inv p h at l = record {
    ordered = p;
    inside = omega (arith, h, inv.inside);
    below = inv.below;
    above = λ i d q r. let s = sorted mid i e d at r q in omega (arith, s, l);
  }

  locate_from_lem :
      (fuel lo hi : ℕ)
      → hi < lo + fuel
      → Inv arr v lo hi
      → (c : ℕ) × (locate_from fuel arr v lo hi (last_of lo) ≡ last_of c) × IsSplit arr v c
  unfolding locate_from
  locate_from_lem zero lo hi f inv = absurd (omega (arith, f, inv.ordered))
  locate_from_lem (suc fuel) lo hi f inv = elim (Bool-cases (ltb lo hi)) [
    | inr e ↦ (
      lo,
      rw e refl,
      record {
        inside = omega (arith, inv.ordered, inv.inside);
        below = inv.below;
        above = λ i d p q. inv.above i d (ground (arith, e, p)) q;
      },
    )
    | inl e ↦
        let mid = (lo + (hi - 1)) / 2 in
        let low : lo ≤ mid = ground (arith, e) in
        let high : mid < hi = ground (arith, e) in
        let (x, at) = get_elem?-some arr mid (omega (arith, high, inv.inside)) in
        elim (Bool-cases (leb x.ptr v)) [
          | inl y ↦
              let (c, q, s) =
                locate_from_lem fuel (suc mid) hi (omega (arith, f, low))
                  (right-Inv lo hi mid x inv high at (ground (arith, y))) in
              (c, rw (locate_from, e, at, y) q, s)
          | inr y ↦
              let (c, q, s) =
                locate_from_lem fuel lo mid (omega (arith, f, high))
                  (left-Inv lo hi mid x inv low high at (ground (arith, y))) in
              (c, rw (locate_from, e, at, y) q, s)
        ]
  ]

  -- The search ends, and finds the last of the blocks that begin at the address or before; none, where
  -- all begin after it. The blocks are sorted by their addresses.
  pub locate_lem : (c : ℕ) × (locate arr v ≡ last_of c) × IsSplit arr v c
  unfolding locate
  locate_lem = locate_from_lem (suc (length arr)) 0 (length arr) (omega arith) (record {
    ordered = omega arith;
    inside = omega arith;
    below = λ i e p q. absurd (omega (arith, p));
    above = λ i e p q. let l = get_elem?_lt arr i q in absurd (omega (arith, p, l));
  })

-- Blocks that do not overlap.
abbrev pub IsDisjoint : List RegEnt → Type 0
IsDisjoint arr =
    (i j : ℕ) (d e : RegEnt)
    → get_elem? arr i ≡ some d
    → get_elem? arr j ≡ some e
    → i < j
    → d.ptr + d.size ≤ e.ptr

-- Among blocks that do not overlap, the search agrees with the bounds of the block: an address points
-- into a block exactly when it lies within it.
pub points_into_lem :
    (arr : List RegEnt) (i v : ℕ) (t : RegEnt)
    → IsSorted arr
    → IsDisjoint arr
    → get_elem? arr i ≡ some t
    → points_into arr t v ≡ (leb t.ptr v && ltb v (t.ptr + t.size))
unfolding points_into
points_into_lem arr i v t sorted apart at =
    elim (Bool-cases (ltb v t.ptr || leb (t.ptr + t.size) v)) [
      | inl e ↦ rw e (ground (arith, e))
      | inr e ↦ let (c, q, s) = locate_lem arr v sorted in rw e (inside c q s e)
    ]
  where
    within : ltb v t.ptr || leb (t.ptr + t.size) v ≡ false → (t.ptr ≤ v) × (v < t.ptr + t.size)
    within e = ground (arith, e)

    last_block :
        (k : ℕ) (d : RegEnt)
        → ltb v t.ptr || leb (t.ptr + t.size) v ≡ false
        → IsSplit arr v (suc k)
        → get_elem? arr k ≡ some d
        → i ≤ k
        → d.ptr ≡ t.ptr
    last_block k d e s here p = elim (Bool-cases (i == k)) [
      | inl y ↦
          let same : get_elem? arr i ≡ get_elem? arr k = ap (get_elem? arr) ((==_iff i k).0 y) in
          ap (λ (x : RegEnt). x.ptr) (some_inj (sym here ∙ (sym same ∙ at)))
      | inr y ↦
          let next = apart i k t d at here (ground (arith, y, p)) in
          let begun = s.below k d (omega arith) here in
          let (_, short) = within e in absurd (omega (arith, next, begun, short))
    ]

    inside :
        (c : ℕ)
        → locate arr v ≡ last_of c
        → IsSplit arr v c
        → ltb v t.ptr || leb (t.ptr + t.size) v ≡ false
        → (elim (locate arr v) [
          | none ↦ false
          | some k ↦ elim (get_elem? arr k) [ none ↦ false | some d ↦ d.ptr == t.ptr ]
        ])
          ≡ (leb t.ptr v && ltb v (t.ptr + t.size))
    inside zero q s e =
        let late = s.above i t (omega arith) at in
        let (begun, _) = within e in absurd (omega (arith, late, begun))
    inside (suc k) q s e =
        let (d, here) = get_elem?-some arr k (omega (arith, s.inside)) in
        let first : i ≤ k = elim (Bool-cases (leb i k)) [
          | inl y ↦ ground (arith, y)
          | inr y ↦
              let late = s.above i t (ground (arith, y)) at in
              let (begun, _) = within e in absurd (omega (arith, late, begun))
        ] in
        rw (q, here, last_block k d e s here first) (ground (arith, e))
