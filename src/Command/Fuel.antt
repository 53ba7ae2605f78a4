-- ===== src/Command/Fuel.antt =====
-- The fuel of the command reader of harness/jinterop.c: every fill that brings bytes shrinks what is
-- to come, and nothing makes the input longer.
use wetype_ime_linux.Base.{
  ℕ, zero, suc, ◌+◌, ◌-◌, ◌≤◌, ◌<◌, ◌≡◌, ◌≢◌, refl, sym, ap, ◌∙◌, inl, inr, List, [], ◌∷◌, ◌++◌,
  Option, none, some, Bool, true, false, ◌==◌, leb, Bool-cases, Option-cases, length, take,
  length-append, length-drop, length-take, arith,
}
use wetype_ime_linux.Command.{
  Item, chunk, pause, In, in_size, newline, polls_empty, after_poll, read_in, cmd_fill, split_line,
  line, cmd_read, cmd_next_is_batch, starts_batch, feed_size,
}

-- All that is buffered or to come.
abbrev pub input_size : In → ℕ
input_size s = length s.buf + feed_size s.feed

-- What a fill does to the sizes.
pub record Shrinks (n f : ℕ) (o : Bool × In) : Type 0 where
  pub total : input_size o.1 ≤ n
  pub feed : feed_size o.1.feed ≤ f
  pub less : o.0 ≡ true → feed_size o.1.feed < f
  pub fits : length o.1.buf ≤ in_size

read_in-Shrinks :
    (buf : List ℕ) (feed : List Item)
    → length buf < in_size
    → Shrinks (length buf + feed_size feed) (feed_size feed) (read_in buf feed)
unfolding read_in
read_in-Shrinks buf [] h = record {
  total = omega arith;
  feed = omega arith;
  less = λ e. cc;
  fits = omega (arith, h);
}
read_in-Shrinks buf (pause ∷ feed) h =
    let i = read_in-Shrinks buf feed h in
    record {
      total = omega (arith, i.total);
      feed = omega (arith, i.feed);
      less = λ e. omega (arith, i.less e);
      fits = i.fits;
    }
read_in-Shrinks buf (chunk [] ∷ feed) h = record {
  total = omega arith;
  feed = omega arith;
  less = λ e. cc;
  fits = omega (arith, h);
}
read_in-Shrinks buf (chunk (c ∷ cs) ∷ feed) h =
    let room = in_size - length buf in
    let size = length-append buf (take room (c ∷ cs)) in
    let taken = length-take room (c ∷ cs) in
    let fits : length (buf ++ take room (c ∷ cs)) ≤ in_size = omega (arith, h, size, taken) in
    elim (Bool-cases (leb (length (c ∷ cs)) room)) [
      | inl e ↦ rw e (record {
        total = omega (arith, size, taken);
        feed = omega arith;
        less = λ q. omega arith;
        fits = fits;
      })
      | inr e ↦
          let left = length-drop room (c ∷ cs) in
          rw e (record {
            total = omega (arith, size, taken, left);
            feed = omega (arith, left);
            less = λ q. omega (arith, left, h);
            fits = fits;
          })
    ]

after_poll_le : (feed : List Item) → feed_size (after_poll feed) ≤ feed_size feed
after_poll_le [] = omega arith
after_poll_le (pause ∷ feed) = omega arith
after_poll_le (chunk c ∷ feed) = omega arith

pub cmd_fill-Shrinks :
    (s : In) → length s.buf ≤ in_size → Shrinks (input_size s) (feed_size s.feed) (cmd_fill false s)
unfolding cmd_fill
cmd_fill-Shrinks s h = elim (Bool-cases (polls_empty s.feed)) [
  | inl e ↦
      rw (cmd_fill, e)
        (let n = after_poll_le s.feed in
          record { total = omega (arith, n); feed = n; less = λ q. cc; fits = h })
  | inr e ↦ elim (Bool-cases (length s.buf == in_size)) [
    | inl full ↦
        let i = read_in-Shrinks [] s.feed (omega arith) in
        rw (cmd_fill, e, full)
          (record { total = omega (arith, i.total); feed = i.feed; less = i.less; fits = i.fits })
    | inr part ↦ rw (cmd_fill, e, part) (read_in-Shrinks s.buf s.feed (ground (arith, part, h)))
  ]
]

-- The rest that a split leaves.
rest_of : Option (List ℕ × List ℕ) → List ℕ
rest_of none = []
rest_of (some (l, r)) = r

-- What stands after a newline is shorter.
pub split_line_less : (bs l r : List ℕ) → split_line bs ≡ some (l, r) → length r < length bs
unfolding split_line rest_of
split_line_less [] l r h = cc
split_line_less (b ∷ bs) l r h = elim (Bool-cases (b == newline)) [
  | inl e ↦
      let q : split_line (b ∷ bs) ≡ some ([], bs) = rw e in
      let same : bs ≡ r = ap rest_of (sym q ∙ h) in let size = ap length same in omega (arith, size)
  | inr e ↦ elim (Option-cases (split_line bs)) [
    | inl n ↦ let q : split_line (b ∷ bs) ≡ none = rw (e, n) in cc
    | inr ((l', r'), y) ↦
        let q : split_line (b ∷ bs) ≡ some (b ∷ l', r') = rw (e, y) in
        let same : r' ≡ r = ap rest_of (sym q ∙ h) in
        let size = ap length same in omega (arith, size, split_line_less bs l' r' y)
  ]
]

-- What looking for a batch gives: an answer, and with a yes a whole line in the buffer.
pub record Looked (s : In) (o : Option (Bool × In)) : Type 0 where
  pub found : Bool
  pub after : In
  pub ends : o ≡ some (found, after)
  pub total : input_size after ≤ input_size s
  pub fits : length after.buf ≤ in_size
  pub whole : found ≡ true → split_line after.buf ≢ none

-- The look for a queued batch ends with the fuel that the feed's size bounds.
pub cmd_next_is_batch-Looked :
    (fuel : ℕ) (s : In)
    → feed_size s.feed < fuel
    → length s.buf ≤ in_size
    → Looked s (cmd_next_is_batch fuel s)
unfolding cmd_next_is_batch
cmd_next_is_batch-Looked zero s f h = absurd (omega arith)
cmd_next_is_batch-Looked (suc fuel) s f h =
    let o = cmd_fill false s in
    let k = cmd_fill-Shrinks s h in
    elim (Option-cases (split_line s.buf)) [
      | inr (l, y) ↦
          rw (cmd_next_is_batch, y)
            (record {
              found = starts_batch s.buf;
              after = s;
              ends = refl;
              total = omega arith;
              fits = h;
              whole = λ q n. ground (arith, sym y ∙ n);
            })
      | inl n ↦ elim (Bool-cases o.0) [
        | inr z ↦
            rw (cmd_next_is_batch, n, z)
              (record {
                found = false;
                after = o.1;
                ends = refl;
                total = k.total;
                fits = k.fits;
                whole = λ q. cc;
              })
        | inl z ↦
            let i = cmd_next_is_batch-Looked fuel o.1 (omega (arith, f, k.less z)) k.fits in
            rw (cmd_next_is_batch, n, z)
              (record {
                found = i.found;
                after = i.after;
                ends = i.ends;
                total = omega (arith, i.total, k.total);
                fits = i.fits;
                whole = i.whole;
              })
      ]
    ]

-- A line that stands in the buffer is read at once.
pub cmd_read-whole :
    (fuel cap : ℕ) (s : In) (l r : List ℕ)
    → split_line s.buf ≡ some (l, r)
    → cmd_read (suc fuel) cap false s ≡ line (take (cap - 1) l) (record s { buf = r })
unfolding cmd_read
cmd_read-whole fuel cap s l r y = rw (cmd_read, y)
