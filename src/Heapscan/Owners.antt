-- ===== src/Heapscan/Owners.antt =====
-- What the search for owners of scripts/mtrace2_heapscan.c reports.
use wetype_ime_linux.Base.{
  ℕ, zero, suc, ◌+◌, ◌*◌, ◌≤◌, ◌<◌, ◌≡◌, ◌≢◌, refl, sym, subst, ◌∙◌, inl, inr, List, [], ◌∷◌, ◌++◌,
  none, some, Bool, true, false, ◌&&◌, ◌==◌, ==_iff, ltb, leb, if-both, Bool-cases, Option-cases,
  All, All-append, get_elem?, arith,
}
use wetype_ime_linux.Daemon.Kept.{none-some, some_inj}
use wetype_ime_linux.Heapscan.{
  RegEnt, Line, edge, no_ref, points_into, first_ref, words_of, refs_to, edges_of, target_lines,
  scan_targets, reversed, scan_blocks,
}
use wetype_ime_linux.Heapscan.Locate.{IsSorted, IsDisjoint, points_into_lem}

-- Whether an address lies in a block.
abbrev pub is_inside : RegEnt → ℕ → Bool
is_inside t v = leb t.ptr v && ltb v (t.ptr + t.size)

abbrev pub IsIn : List RegEnt → RegEnt → Type 0
IsIn arr t = (i : ℕ) × (get_elem? arr i ≡ some t)

module _ (word : ℕ → ℕ) (arr : List RegEnt) where
  -- Word `w` of block `b` points into `t`, and no word before it does.
  pub record IsFirst (t b : RegEnt) (w : ℕ) : Type 0 where
    pub read : w < words_of b
    pub points : is_inside t (word (b.ptr + w * 8)) ≡ true
    pub before : (x : ℕ) → x < w → is_inside t (word (b.ptr + x * 8)) ≡ false

  -- No word that is read of block `b` points into `t`.
  abbrev pub NoneIn : RegEnt → RegEnt → Type 0
  NoneIn t b = (x : ℕ) → x < words_of b → is_inside t (word (b.ptr + x * 8)) ≡ false

  -- What a line says of the heap.
  pub data IsTrue (size : ℕ) : Line → Type 0 where
    true_edge :
        {t b : RegEnt} {o : ℕ}
        → IsIn arr t
        → IsIn arr b
        → t.size ≡ size
        → (w : ℕ) → o ≡ w * 8
        → IsFirst t b w
        → IsTrue size (edge t b o)
    true_none :
        {t : RegEnt} → IsIn arr t → t.size ≡ size → All (NoneIn t) arr → IsTrue size (no_ref t)

  module _ (sorted : IsSorted arr) (apart : IsDisjoint arr) where
    module _ (t : RegEnt) (known : IsIn arr t) where
      exact : (v : ℕ) → points_into arr t v ≡ is_inside t v
      exact v = points_into_lem arr known.0 v t sorted apart known.1

      first_ref-none :
          (p k w : ℕ)
          → first_ref word arr t p k w ≡ none
          → (x : ℕ) → w ≤ x
          → x < w + k
          → is_inside t (word (p + x * 8)) ≡ false
      unfolding first_ref
      first_ref-none p zero w h x l g = absurd (omega (arith, l, g))
      first_ref-none p (suc k) w h x l g =
          elim (Bool-cases (points_into arr t (word (p + w * 8)))) [
            | inl e ↦
                let q : first_ref word arr t p (suc k) w ≡ some w = rw e refl in
                absurd (none-some (sym h ∙ q))
            | inr e ↦
                let q : first_ref word arr t p (suc k) w ≡ first_ref word arr t p k (suc w) =
                  rw e refl in
                elim (Bool-cases (w == x)) [
                  | inl y ↦
                      subst (λ z. is_inside t (word (p + z * 8)) ≡ false) ((==_iff w x).0 y)
                        (sym (exact (word (p + w * 8))) ∙ e)
                  | inr y ↦
                      first_ref-none p k (suc w) (sym q ∙ h) x (ground (arith, y, l))
                        (omega (arith, g))
                ]
          ]

      first_ref-some :
          (p k w r : ℕ)
          → first_ref word arr t p k w ≡ some r
          → (w ≤ r)
            × (r < w + k)
            × (is_inside t (word (p + r * 8)) ≡ true)
            × ((x : ℕ) → w ≤ x → x < r → is_inside t (word (p + x * 8)) ≡ false)
      unfolding first_ref
      first_ref-some p zero w r h = absurd (none-some h)
      first_ref-some p (suc k) w r h = elim (Bool-cases (points_into arr t (word (p + w * 8)))) [
        | inl e ↦
            let q : first_ref word arr t p (suc k) w ≡ some w = rw e refl in
            let same : w ≡ r = some_inj (sym q ∙ h) in
            (
              omega (arith, same),
              omega (arith, same),
              subst (λ z. is_inside t (word (p + z * 8)) ≡ true) same
                  (sym (exact (word (p + w * 8))) ∙ e),
              λ x l g. absurd (omega (arith, same, l, g)),
            )
        | inr e ↦
            let q : first_ref word arr t p (suc k) w ≡ first_ref word arr t p k (suc w) =
              rw e refl in
            let (low, high, here, before) = first_ref-some p k (suc w) r (sym q ∙ h) in
            (
              omega (arith, low),
              omega (arith, high),
              here,
              λ x l g. elim (Bool-cases (w == x)) [
                | inl y ↦
                    subst (λ z. is_inside t (word (p + z * 8)) ≡ false) ((==_iff w x).0 y)
                      (sym (exact (word (p + w * 8))) ∙ e)
                | inr y ↦ before x (ground (arith, y, l)) g
              ],
            )
      ]

      first_ref-IsFirst :
          (b : RegEnt) (w : ℕ) → first_ref word arr t b.ptr (words_of b) 0 ≡ some w → IsFirst t b w
      first_ref-IsFirst b w h =
          let (_, high, here, before) = first_ref-some b.ptr (words_of b) 0 w h in
          record {
            read = omega (arith, high);
            points = here;
            before = λ x l. before x (omega arith) l;
          }

      none-NoneIn : (b : RegEnt) → first_ref word arr t b.ptr (words_of b) 0 ≡ none → NoneIn t b
      none-NoneIn b h x l = first_ref-none b.ptr (words_of b) 0 h x (omega arith) (omega (arith, l))

      refs_to-IsTrue :
          (size : ℕ)
          → t.size ≡ size
          → (bs : List RegEnt) (refs edges : ℕ) → All (IsIn arr) bs
          → All (IsTrue size) (refs_to word arr t bs refs edges)
      unfolding refs_to
      refs_to-IsTrue size z [] refs edges a = tt
      refs_to-IsTrue size z (b ∷ bs) refs edges a =
          elim (Bool-cases (ltb refs 8 && ltb edges 600)) [
            | inr e ↦ rw e tt
            | inl e ↦ elim (Option-cases (first_ref word arr t b.ptr (words_of b) 0)) [
              | inl h ↦ rw (refs_to, e, h) (refs_to-IsTrue size z bs refs edges a.1)
              | inr (w, h) ↦
                  rw (refs_to, e, h)
                    (
                      true_edge known a.0 z w refl (first_ref-IsFirst b w h),
                      refs_to-IsTrue size z bs (suc refs) (suc edges) a.1,
                    )
            ]
          ]

      refs_to-nil :
          (bs : List RegEnt) (refs edges : ℕ)
          → ltb refs 8 && ltb edges 600 ≡ true
          → refs_to word arr t bs refs edges ≡ []
          → All (NoneIn t) bs
      unfolding refs_to
      refs_to-nil [] refs edges e h = tt
      refs_to-nil (b ∷ bs) refs edges e h =
          elim (Option-cases (first_ref word arr t b.ptr (words_of b) 0)) [
            | inl n ↦
                let q : refs_to word arr t (b ∷ bs) refs edges ≡ refs_to word arr t bs refs edges =
                  rw (refs_to, e, n) refl in
                (none-NoneIn b n, refs_to-nil bs refs edges e (sym q ∙ h))
            | inr (w, n) ↦
                let q : refs_to word arr t (b ∷ bs) refs edges
                    ≡ edge t b (w * 8) ∷ refs_to word arr t bs (suc refs) (suc edges) =
                  rw (refs_to, e, n) refl in
                let bad : edge t b (w * 8) ∷ refs_to word arr t bs (suc refs) (suc edges) ≡ [] =
                  sym q ∙ h in
                absurd (ground (arith, bad))
          ]

      target_lines-IsTrue :
          (size edges : ℕ)
          → t.size ≡ size
          → ltb edges 600 ≡ true
          → All (IsIn arr) arr
          → All (IsTrue size) (target_lines word arr t edges)
      unfolding target_lines
      target_lines-IsTrue size edges z e a = lines (refs_to word arr t arr 0 edges) refl
        where
          lines :
              (ls : List Line)
              → refs_to word arr t arr 0 edges ≡ ls
              → All (IsTrue size) (target_lines word arr t edges)
          lines [] h =
              rw (target_lines, h) (true_none known z (refs_to-nil arr 0 edges (rw e refl) h), tt)
          lines (l ∷ ls) h =
              rw (target_lines, h)
                (subst (All (IsTrue size)) h (refs_to-IsTrue size z arr 0 edges a))

    scan_targets-IsTrue :
        (size : ℕ) (ts : List RegEnt) (found edges : ℕ)
        → All (IsIn arr) ts
        → All (IsIn arr) arr
        → All (IsTrue size) (scan_targets word arr size ts found edges)
    unfolding scan_targets
    scan_targets-IsTrue size [] found edges a all = tt
    scan_targets-IsTrue size (t ∷ ts) found edges a all =
        let ls = target_lines word arr t edges in
        let P = All (IsTrue size) in
        elim (Bool-cases (ltb edges 600)) [
          | inr e ↦ rw e tt
          | inl e ↦ elim (Bool-cases (t.size == size)) [
            | inr z ↦ rw (e, z) (scan_targets-IsTrue size ts found edges a.1 all)
            | inl z ↦
                rw (e, z)
                  (if-both P (ltb 8 (suc found)) _ _
                    (scan_targets-IsTrue size ts (suc found) edges a.1 all)
                    (All-append (IsTrue size) ls _
                      (target_lines-IsTrue t a.0 size edges ((==_iff t.size size).0 z) e all)
                      (scan_targets-IsTrue size ts (suc found) (edges + edges_of ls) a.1 all)))
          ]
        ]

All-reversed :
    (P : RegEnt → Type 0) (xs acc : List RegEnt) → All P xs → All P acc → All P (reversed xs acc)
unfolding reversed
All-reversed P [] acc h g = g
All-reversed P (x ∷ xs) acc h g = All-reversed P xs (x ∷ acc) h.1 (h.0, g)

pub All-IsIn : (xs : List RegEnt) → All (IsIn xs) xs
All-IsIn [] = tt
All-IsIn (x ∷ xs) = ((0, refl), later xs (All-IsIn xs))
  where
    later : (ys : List RegEnt) → All (IsIn xs) ys → All (IsIn (x ∷ xs)) ys
    later [] h = tt
    later (y ∷ ys) h = ((suc h.0.0, h.0.1), later ys h.1)

All-of_reversed :
    (P : RegEnt → Type 0) (xs acc : List RegEnt) → All P (reversed xs acc) → All P xs × All P acc
unfolding reversed
All-of_reversed P [] acc h = (tt, h)
All-of_reversed P (x ∷ xs) acc h =
    let (rest, top) = All-of_reversed P xs (x ∷ acc) h in ((top.0, rest), top.1)

target_lines-ne :
    (word : ℕ → ℕ) (arr : List RegEnt) (t : RegEnt) (edges : ℕ) (more : List Line)
    → target_lines word arr t edges ++ more ≢ []
unfolding target_lines
target_lines-ne word arr t edges more = some_line (refs_to word arr t arr 0 edges) refl
  where
    some_line :
        (ls : List Line)
        → refs_to word arr t arr 0 edges ≡ ls
        → target_lines word arr t edges ++ more ≢ []
    some_line [] h = rw (target_lines, h) (λ e. ground (arith, e))
    some_line (l ∷ ls) h = rw (target_lines, h) (λ e. ground (arith, e))

scan_targets-nil :
    (word : ℕ → ℕ) (arr : List RegEnt) (size : ℕ) (ts : List RegEnt)
    → scan_targets word arr size ts 0 0 ≡ []
    → All (λ (t : RegEnt). t.size ≢ size) ts
unfolding scan_targets
scan_targets-nil word arr size [] h = tt
scan_targets-nil word arr size (t ∷ ts) h = elim (Bool-cases (t.size == size)) [
  | inl e ↦
      let ls = target_lines word arr t 0 in
      let rest = scan_targets word arr size ts 1 (0 + edges_of ls) in
      let q : scan_targets word arr size (t ∷ ts) 0 0 ≡ ls ++ rest = rw (scan_targets, e) refl in
      absurd (target_lines-ne word arr t 0 rest (sym q ∙ h))
  | inr e ↦
      let q : scan_targets word arr size (t ∷ ts) 0 0 ≡ scan_targets word arr size ts 0 0 =
        rw (scan_targets, e) refl in
      (λ z. ground (arith, e, z), scan_targets-nil word arr size ts (sym q ∙ h))
]

-- All that the scan reports is so: an edge names the first word of a block that points into a block
-- of the size asked for, and `NO-REF` is said of such a block only if no word that is read of any
-- block points into it; and it reports nothing only if no block has that size. The blocks are sorted
-- by `qsort`, and do not overlap.
pub scan_blocks-IsTrue :
    (qsort : List RegEnt → List RegEnt) (word : ℕ → ℕ) (size : ℕ) (blocks : List RegEnt)
    → IsSorted (qsort blocks)
    → IsDisjoint (qsort blocks)
    → All (IsTrue word (qsort blocks) size) (scan_blocks qsort word size blocks)
      × (scan_blocks qsort word size blocks ≡ []
          → All (λ (t : RegEnt). t.size ≢ size) (qsort blocks))
unfolding scan_blocks
scan_blocks-IsTrue qsort word size blocks sorted apart =
    let arr = qsort blocks in
    (
      scan_targets-IsTrue word arr sorted apart size (reversed arr []) 0 0
          (All-reversed (IsIn arr) arr [] (All-IsIn arr) tt) (All-IsIn arr),
      λ h.
          (All-of_reversed (λ (t : RegEnt). t.size ≢ size) arr []
            (scan_targets-nil word arr size (reversed arr []) h)).0,
    )
