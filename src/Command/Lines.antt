-- ===== src/Command/Lines.antt =====
-- The command reader of harness/jinterop.c yields the lines of its input however the input is cut
-- into reads.
use wetype_ime_linux.Base.{
  ℕ, zero, suc, ◌+◌, ◌-◌, ◌≤◌, ◌<◌, ◌≡◌, ◌≢◌, refl, sym, ap, ap₂, ◌∙◌, inl, inr, List, [], ◌∷◌,
  ◌++◌, none, some, Bool, true, false, ◌==◌, leb, if◌then◌else◌, ==_of_ne, Bool-cases, length, take,
  drop, All, length-append, length-drop, length-take, take-append-drop, take-eq_self, arith,
}
use mathlib.Core.List.{append_assoc}
use wetype_ime_linux.Command.{
  Item, chunk, pause, In, in_size, newline, read_in, cmd_fill, split_line, Read, line, no_line,
  out_of_fuel, cmd_read, feed_size,
}

-- The bytes that the feed gives, in order.
abbrev pub bytes_of : List Item → List ℕ
bytes_of [] = []
bytes_of (chunk c ∷ feed) = c ++ bytes_of feed
bytes_of (pause ∷ feed) = bytes_of feed

-- The bytes that are not yet read as lines.
abbrev pub stream : In → List ℕ
stream s = s.buf ++ bytes_of s.feed

-- A line has no newline in it.
abbrev pub IsLine : List ℕ → Type 0
IsLine = All (λ c. c ≢ newline)

-- No read gives zero bytes before the end of the file.
abbrev pub IsFeed : List Item → Type 0
IsFeed [] = Unit {0}
IsFeed (chunk c ∷ feed) = (c ≢ []) × IsFeed feed
IsFeed (pause ∷ feed) = IsFeed feed

-- The first newline of a list is where any reading of it as a line and a rest puts it.
split_line_lem : (l rest : List ℕ) → IsLine l → split_line (l ++ newline ∷ rest) ≡ some (l, rest)
unfolding split_line
split_line_lem [] rest h = refl
split_line_lem (c ∷ cs) rest h = rw (==_of_ne c newline h.0, split_line_lem cs rest h.1)

split_none : (b : ℕ) (bs : List ℕ) → b ≢ newline → split_line bs ≡ none → split_line (b ∷ bs) ≡ none
unfolding split_line
split_none b bs h e = rw (==_of_ne b newline h, e)

-- Where the buffer begins a line and its rest, it has the newline, or is a part of the line.
data Prefix (buf more l rest : List ℕ) : Type 0 where
  whole : (r : List ℕ) → buf ≡ l ++ newline ∷ r → rest ≡ r ++ more → Prefix buf more l rest
  part :
      (l' : List ℕ)
      → l ≡ buf ++ l'
      → more ≡ l' ++ newline ∷ rest
      → split_line buf ≡ none
      → Prefix buf more l rest

prefix_cases :
    (buf more l rest : List ℕ)
    → IsLine l
    → buf ++ more ≡ l ++ newline ∷ rest
    → Prefix buf more l rest
prefix_cases [] more l rest h e = part l refl e (unfold split_line in refl)
prefix_cases (b ∷ bs) more [] rest h e = whole bs (ground (arith, e)) (cc)
prefix_cases (b ∷ bs) more (c ∷ cs) rest h e =
    let same : b ≡ c = cc in
    let ne : b ≢ newline = λ q. h.0 (sym same ∙ q) in
    elim (prefix_cases bs more cs rest h.1 (cc)) [
      | whole r p q ↦ whole r (ap₂ ◌∷◌ same p) q
      | part l' p q n ↦ part l' (ap₂ ◌∷◌ (sym same) p) q (split_none b bs ne n)
    ]

-- A fill that is not cut off by the end of the file brings at least one byte and loses none.
record Filled (buf : List ℕ) (feed : List Item) (o : Bool × In) : Type 0 where
  got : o.0 ≡ true
  same : stream o.1 ≡ buf ++ bytes_of feed
  less : feed_size o.1.feed < feed_size feed
  fits : length o.1.buf ≤ in_size
  more : IsFeed o.1.feed

-- What of a chunk fits, then what is put back, is the chunk.
rest_of_chunk :
    (room : ℕ) (xs : List ℕ) (feed : List Item)
    → take room xs ++ bytes_of (if leb (length xs) room then feed else chunk (drop room xs) ∷ feed)
      ≡ xs ++ bytes_of feed
rest_of_chunk room xs feed = elim (Bool-cases (leb (length xs) room)) [
  | inl e ↦ rw (e, take-eq_self room xs (ground arith))
  | inr e ↦
      rw (e, ← append_assoc (take room xs) (drop room xs) (bytes_of feed), take-append-drop room xs)
]

chunk_less :
    (room : ℕ) (xs : List ℕ) (feed : List Item)
    → 0 < room
    → xs ≢ []
    → feed_size (if leb (length xs) room then feed else chunk (drop room xs) ∷ feed)
      < suc (length xs + feed_size feed)
chunk_less room [] feed h ne = absurd (ne refl)
chunk_less room (x ∷ xs) feed h ne = elim (Bool-cases (leb (length (x ∷ xs)) room)) [
  | inl e ↦ rw e (omega arith)
  | inr e ↦ rw e (omega (arith, length-drop room (x ∷ xs)))
]

drop_more : (room : ℕ) (xs : List ℕ) → room < length xs → drop room xs ≢ []
drop_more room xs h = λ q.
    absurd
      (let z : length (drop room xs) ≡ 0 = ap length q in omega (arith, z, length-drop room xs))

chunk_IsFeed :
    (room : ℕ) (xs : List ℕ) (feed : List Item)
    → IsFeed feed
    → IsFeed (if leb (length xs) room then feed else chunk (drop room xs) ∷ feed)
chunk_IsFeed room xs feed f = elim (Bool-cases (leb (length xs) room)) [
  | inl e ↦ rw e f
  | inr e ↦ rw e (drop_more room xs (ground (arith, e)), f)
]

read_in-Filled :
    (buf : List ℕ) (feed : List Item)
    → length buf < in_size
    → IsFeed feed
    → bytes_of feed ≢ []
    → Filled buf feed (read_in buf feed)
unfolding read_in
read_in-Filled buf [] h f ne = absurd (ne refl)
read_in-Filled buf (pause ∷ feed) h f ne =
    let i = read_in-Filled buf feed h f ne in
    record {
      got = i.got;
      same = i.same;
      less = omega (arith, i.less);
      fits = i.fits;
      more = i.more;
    }
read_in-Filled buf (chunk [] ∷ feed) h f ne = absurd (f.0 refl)
read_in-Filled buf (chunk (c ∷ cs) ∷ feed) h f ne = record {
  got = refl;
  same =
      append_assoc buf (take (in_size - length buf) (c ∷ cs)) _
      ∙ ap (◌++◌ buf) (rest_of_chunk (in_size - length buf) (c ∷ cs) feed);
  less = chunk_less (in_size - length buf) (c ∷ cs) feed (omega arith) f.0;
  fits = omega (
    arith,
    length-append buf (take (in_size - length buf) (c ∷ cs)),
    length-take (in_size - length buf) (c ∷ cs),
  );
  more = chunk_IsFeed (in_size - length buf) (c ∷ cs) feed f.1;
}

-- A line shorter than the buffer never meets the case in which the buffer is thrown away.
cmd_fill-Filled :
    (s : In)
    → length s.buf < in_size
    → IsFeed s.feed
    → bytes_of s.feed ≢ []
    → Filled s.buf s.feed (cmd_fill true s)
unfolding cmd_fill
cmd_fill-Filled s h f ne =
    let open_end : (length s.buf == in_size) ≡ false =
      ==_of_ne (length s.buf) in_size (λ e. omega arith) in
    rw open_end (read_in-Filled s.buf s.feed h f ne)

-- What reading one line gives.
pub record OneLine (cap : ℕ) (s : In) (l rest : List ℕ) (r : Read) : Type 0 where
  after : In
  reads : r ≡ line (take (cap - 1) l) after
  same : stream after ≡ rest
  less : feed_size after.feed ≤ feed_size s.feed
  fits : length after.buf ≤ in_size
  more : IsFeed after.feed

-- The program's requirements on the state of the reader: its buffer is no longer than it is, and the
-- descriptor gives bytes until its end.
pub record IsReader (s : In) : Type 0 where
  pub fits : length s.buf ≤ in_size
  pub feed : IsFeed s.feed

append-ne_nil : (xs : List ℕ) (y : ℕ) (ys : List ℕ) → xs ++ y ∷ ys ≢ []
append-ne_nil [] y ys = λ q. ground arith
append-ne_nil (x ∷ xs) y ys = λ q. ground arith

-- While the input begins with a line of fewer than 8192 bytes and its newline, a blocking `cmd_read`
-- gives that line, cut to the caller's buffer, and leaves exactly what follows the newline. It
-- does so wherever the reads cut the input, and with the fuel that the input's size bounds.
pub cmd_read_lem :
    (fuel cap : ℕ) (s : In) (l rest : List ℕ)
    → feed_size s.feed < fuel
    → IsReader s
    → IsLine l
    → length l < in_size
    → stream s ≡ l ++ newline ∷ rest
    → OneLine cap s l rest (cmd_read fuel cap true s)
unfolding cmd_read
cmd_read_lem zero cap s l rest enough ok h short e = absurd (omega arith)
cmd_read_lem (suc fuel) cap s l rest enough ok h short e =
    elim (prefix_cases s.buf (bytes_of s.feed) l rest h e) [
      | whole r p q ↦
          let found : split_line s.buf ≡ some (l, r) = ap split_line p ∙ split_line_lem l r h in
          rw (found, cmd_read)
            (record {
              after = record s { buf = r };
              reads = refl;
              same = sym q;
              less = omega arith;
              fits =
                  let n = ap length p in omega (arith, ok.fits, n, length-append l (newline ∷ r));
              more = ok.feed;
            })
      | part l' p q n ↦
          let size = ap length p in
          let small : length s.buf < in_size = omega (arith, size, short, length-append s.buf l') in
          let f =
            cmd_fill-Filled s small ok.feed (λ z. append-ne_nil l' newline rest (sym q ∙ z)) in
          let i =
            cmd_read_lem fuel cap (cmd_fill true s).1 l rest (omega (arith, f.less))
              (record { fits = f.fits; feed = f.more }) h short (f.same ∙ e) in
          rw (n, f.got, cmd_read)
            (record {
              after = i.after;
              reads = i.reads;
              same = i.same;
              less = omega (arith, i.less, f.less);
              fits = i.fits;
              more = i.more;
            })
    ]

-- A client that reads so many lines.
pub data AllRead : Type 0 where
  all_read : List (List ℕ) → In → AllRead
  cut_short : AllRead

unfoldable pub read_lines : ℕ → ℕ → ℕ → In → AllRead
read_lines zero fuel cap s = all_read [] s
read_lines (suc n) fuel cap s = elim (cmd_read fuel cap true s) [
  | line l s' ↦ elim (read_lines n fuel cap s') [
    | all_read ls t ↦ all_read (l ∷ ls) t
    | cut_short ↦ cut_short
  ]
  | no_line s' ↦ cut_short
  | out_of_fuel ↦ cut_short
]

-- Lines as they are sent.
abbrev pub sent : List (List ℕ) → List ℕ
sent [] = []
sent (l ∷ ls) = l ++ newline ∷ sent ls

-- Lines that the reader takes whole.
abbrev pub AreCommands : ℕ → List (List ℕ) → Type 0
AreCommands cap = All (λ l. IsLine l × (length l < in_size) × (length l ≤ cap - 1))

-- What the client sends as lines is what the program reads as commands, in order, each as it was
-- sent, however the descriptor cuts the bytes; and all of the input is then used up.
pub read_lines-sent :
    (ls : List (List ℕ)) (fuel cap : ℕ) (s : In)
    → feed_size s.feed < fuel
    → IsReader s
    → AreCommands cap ls
    → stream s ≡ sent ls
    → (s' : In) × (read_lines (length ls) fuel cap s ≡ all_read ls s') × (stream s' ≡ [])
unfolding read_lines
read_lines-sent [] fuel cap s enough ok h e = (s, refl, e)
read_lines-sent (l ∷ ls) fuel cap s enough ok h e =
    let one = cmd_read_lem fuel cap s l (sent ls) enough ok h.0.0 h.0.1 e in
    let reads : cmd_read fuel cap true s ≡ line l one.after =
      one.reads ∙ ap (λ x. line x one.after) (take-eq_self (cap - 1) l h.0.2) in
    let (t, r, z) =
      read_lines-sent ls fuel cap one.after (omega (arith, one.less))
        (record { fits = one.fits; feed = one.more }) h.1 one.same in
    (t, rw (reads, read_lines, r), z)
