-- ===== src/Command/Count.antt =====
-- The lines that the command reader of harness/jinterop.c takes out of its input.
use wetype_ime_linux.Base.{
  ℕ, zero, suc, ◌+◌, ◌-◌, ◌≤◌, ◌≡◌, refl, sym, ap, ◌∙◌, inl, inr, List, [], ◌∷◌, ◌++◌, Option, none,
  some, Bool, false, not, ◌&&◌, ◌==◌, leb, if◌then◌else◌, Bool-cases, Option-cases, length, take,
  drop, take-append-drop, arith,
}
use wetype_ime_linux.Daemon.Kept.{some_inj, none-some}
use wetype_ime_linux.Command.{
  Item, chunk, pause, In, in_size, newline, polls_empty, after_poll, read_in, cmd_fill, split_line,
  Read, line, no_line, out_of_fuel, cmd_read, cmd_next_is_batch, starts_batch,
}

-- The newlines of a text.
abbrev pub newlines : List ℕ → ℕ
newlines [] = 0
newlines (c ∷ cs) = (if c == newline then 1 else 0) + newlines cs

-- The newlines still to come.
abbrev pub feed_lines : List Item → ℕ
feed_lines [] = 0
feed_lines (chunk c ∷ feed) = newlines c + feed_lines feed
feed_lines (pause ∷ feed) = feed_lines feed

-- The whole lines of the input: those buffered, and those still to come.
abbrev pub lines_of : In → ℕ
lines_of s = newlines s.buf + feed_lines s.feed

newlines-append : (xs ys : List ℕ) → newlines (xs ++ ys) ≡ newlines xs + newlines ys
newlines-append [] ys = omega arith
newlines-append (x ∷ xs) ys = omega (arith, newlines-append xs ys)

newlines-drop : (n : ℕ) (xs : List ℕ) → length xs ≤ n → newlines (drop n xs) ≡ 0
newlines-drop zero [] h = refl
newlines-drop zero (x ∷ xs) h = absurd (omega (arith, h))
newlines-drop (suc n) [] h = refl
newlines-drop (suc n) (x ∷ xs) h = newlines-drop n xs (omega (arith, h))

read_in_lines :
    (buf : List ℕ) (feed : List Item)
    → lines_of (read_in buf feed).1 ≡ newlines buf + feed_lines feed
unfolding read_in
read_in_lines buf [] = refl
read_in_lines buf (pause ∷ feed) = read_in_lines buf feed
read_in_lines buf (chunk [] ∷ feed) = omega arith
read_in_lines buf (chunk (c ∷ cs) ∷ feed) =
    let room = in_size - length buf in
    let first = take room (c ∷ cs) in
    let rest = drop room (c ∷ cs) in
    let both = newlines-append first rest in
    let whole = ap newlines (take-append-drop room (c ∷ cs)) in
    let joined = newlines-append buf first in
    elim (Bool-cases (leb (length (c ∷ cs)) room)) [
      | inl e ↦
          rw e (omega (arith, both, whole, joined, newlines-drop room (c ∷ cs) (ground (arith, e))))
      | inr e ↦ rw e (omega (arith, both, whole, joined))
    ]

split_line-none : (bs : List ℕ) → split_line bs ≡ none → newlines bs ≡ 0
unfolding split_line
split_line-none [] h = refl
split_line-none (b ∷ bs) h = elim (Bool-cases (b == newline)) [
  | inl e ↦ let q : split_line (b ∷ bs) ≡ some ([], bs) = rw e in absurd (none-some (sym h ∙ q))
  | inr e ↦ elim (Option-cases (split_line bs)) [
    | inl n ↦ rw e (omega (arith, split_line-none bs n))
    | inr ((l, r), y) ↦
        let q : split_line (b ∷ bs) ≡ some (b ∷ l, r) = rw (e, y) in absurd (none-some (sym h ∙ q))
  ]
]

after_line : Option (List ℕ × List ℕ) → List ℕ
after_line none = []
after_line (some (l, r)) = r

split_line-some : (bs l r : List ℕ) → split_line bs ≡ some (l, r) → newlines bs ≡ suc (newlines r)
unfolding split_line after_line
split_line-some [] l r h = cc
split_line-some (b ∷ bs) l r h = elim (Bool-cases (b == newline)) [
  | inl e ↦
      let q : split_line (b ∷ bs) ≡ some ([], bs) = rw e in
      let same = ap newlines (ap after_line (sym q ∙ h)) in rw e (omega (arith, same))
  | inr e ↦ elim (Option-cases (split_line bs)) [
    | inl n ↦ let q : split_line (b ∷ bs) ≡ none = rw (e, n) in cc
    | inr ((l', r'), y) ↦
        let q : split_line (b ∷ bs) ≡ some (b ∷ l', r') = rw (e, y) in
        let same = ap newlines (ap after_line (sym q ∙ h)) in
        rw e (omega (arith, split_line-some bs l' r' y, same))
  ]
]

feed_lines-after_poll : (feed : List Item) → feed_lines (after_poll feed) ≡ feed_lines feed
feed_lines-after_poll [] = refl
feed_lines-after_poll (pause ∷ feed) = refl
feed_lines-after_poll (chunk c ∷ feed) = refl

-- A fill loses no newline, as it throws a buffer away only if it holds none.
cmd_fill_lines :
    (block : Bool) (s : In) → newlines s.buf ≡ 0 → lines_of (cmd_fill block s).1 ≡ lines_of s
unfolding cmd_fill
cmd_fill_lines block s h = elim (Bool-cases (not block && polls_empty s.feed)) [
  | inl e ↦ rw (cmd_fill, e) (omega (arith, feed_lines-after_poll s.feed))
  | inr e ↦ elim (Bool-cases (length s.buf == in_size)) [
    | inl full ↦ rw (cmd_fill, e, full) (omega (arith, read_in_lines [] s.feed, h))
    | inr part ↦ rw (cmd_fill, e, part) (read_in_lines s.buf s.feed)
  ]
]

-- A look for a batch takes no line.
pub cmd_next_is_batch_lines :
    (fuel : ℕ) (s i : In) (b : Bool)
    → cmd_next_is_batch fuel s ≡ some (b, i)
    → lines_of i ≡ lines_of s
unfolding cmd_next_is_batch
cmd_next_is_batch_lines zero s i b h = absurd (none-some h)
cmd_next_is_batch_lines (suc fuel) s i b h =
    let o = cmd_fill false s in
    elim (Option-cases (split_line s.buf)) [
      | inr (l, y) ↦
          let q : cmd_next_is_batch (suc fuel) s ≡ some (starts_batch s.buf, s) =
            rw (cmd_next_is_batch, y) in
          ap (λ (x : Bool × In). lines_of x.1) (some_inj (sym h ∙ q))
      | inl n ↦
          let kept = cmd_fill_lines false s (split_line-none s.buf n) in
          elim (Bool-cases o.0) [
            | inl z ↦
                let q : cmd_next_is_batch (suc fuel) s ≡ cmd_next_is_batch fuel o.1 =
                  rw (cmd_next_is_batch, n, z) in
                cmd_next_is_batch_lines fuel o.1 i b (sym q ∙ h) ∙ kept
            | inr z ↦
                let q : cmd_next_is_batch (suc fuel) s ≡ some (false, o.1) =
                  rw (cmd_next_is_batch, n, z) in
                ap (λ (x : Bool × In). lines_of x.1) (some_inj (sym h ∙ q)) ∙ kept
          ]
    ]

-- What a read takes: a line, or none.
abbrev pub Took : In → Read → Type 0
Took s (line l i) = lines_of s ≡ suc (lines_of i)
Took s (no_line i) = lines_of s ≡ lines_of i
Took s out_of_fuel = Unit

pub cmd_read-Took : (fuel cap : ℕ) (block : Bool) (s : In) → Took s (cmd_read fuel cap block s)
unfolding cmd_read
cmd_read-Took zero cap block s = tt
cmd_read-Took (suc fuel) cap block s =
    let o = cmd_fill block s in
    elim (Option-cases (split_line s.buf)) [
      | inr ((l, r), y) ↦ rw (cmd_read, y) (omega (arith, split_line-some s.buf l r y))
      | inl n ↦
          let kept = cmd_fill_lines block s (split_line-none s.buf n) in
          elim (Bool-cases o.0) [
            | inl z ↦
                rw (cmd_read, n, z)
                  (again o.1 (cmd_read fuel cap block o.1) kept (cmd_read-Took fuel cap block o.1))
            | inr z ↦ rw (cmd_read, n, z) (sym kept)
          ]
    ]
  where
    again : (t : In) (r : Read) → lines_of t ≡ lines_of s → Took t r → Took s r
    again t (line l i) e h = sym e ∙ h
    again t (no_line i) e h = sym e ∙ h
    again t out_of_fuel e h = tt
