-- ===== src/Command.antt =====
-- The command reader of harness/jinterop.c (`cmd_fill`, `cmd_read`, `cmd_next_is_batch`): lines out
-- of a fixed buffer that is filled from file descriptor 0.
-- The environment is the list of what the descriptor has to give: a chunk of bytes, or a moment in
-- which nothing is readable. Its end is the end of the file. An interrupted `read` is retried by
-- the code, so it does not show.
pub mod Count
pub mod Fuel
pub mod Lines
use wetype_ime_linux.Base.{
  ℕ, zero, suc, ◌+◌, ◌-◌, ◌<◌, List, [], ◌∷◌, ◌++◌, Option, none, some, Bool, true, false, not,
  ◌&&◌, ◌==◌, ltb, leb, if◌then◌else◌, length, take, drop,
}

pub data Item : Type 0 where
  chunk : List ℕ → Item
  pause : Item

-- `g_in[0 .. g_in_len)` and what is still to come.
pub record In : Type 0 where
  pub buf : List ℕ
  pub feed : List Item

abbrev pub in_size : ℕ
in_size = 8192

abbrev pub newline : ℕ
newline = 10

-- Whether the next `poll` finds nothing to read; that moment then passes.
abbrev pub polls_empty : List Item → Bool
polls_empty (pause ∷ feed) = true
polls_empty feed = false

abbrev pub after_poll : List Item → List Item
after_poll (pause ∷ feed) = feed
after_poll feed = feed

-- `read` into the room that the buffer has: whether bytes came, and the new state.
unfoldable pub read_in : List ℕ → List Item → Bool × In
read_in buf [] = (false, record { buf = buf; feed = [] })
read_in buf (pause ∷ feed) = read_in buf feed
read_in buf (chunk [] ∷ feed) = (false, record { buf = buf; feed = feed })
read_in buf (chunk (c ∷ cs) ∷ feed) =
    let room = in_size - length buf in
    let left = drop room (c ∷ cs) in
    (
      true,
      record {
        buf = buf ++ take room (c ∷ cs);
        feed = if leb (length (c ∷ cs)) room then feed else chunk left ∷ feed;
      },
    )

-- `cmd_fill`: an overlong line is thrown away before the next read.
unfoldable pub cmd_fill : Bool → In → Bool × In
cmd_fill block s =
    if not block && polls_empty s.feed
    then (false, record s { feed = after_poll s.feed })
    else read_in (if length s.buf == in_size then [] else s.buf) s.feed

-- `memchr(g_in, '\n', g_in_len)`: what stands before the first newline, and after it.
unfoldable pub split_line : List ℕ → Option (List ℕ × List ℕ)
split_line [] = none
split_line (c ∷ cs) =
    let rest = split_line cs in
    if c == newline
    then some ([], cs)
    else elim rest [ none ↦ none | some (l, r) ↦ some (c ∷ l, r) ]

-- A line, the end of the input (or nothing to read), or a loop cut off by the fuel.
pub data Read : Type 0 where
  line : List ℕ → In → Read
  no_line : In → Read
  out_of_fuel : Read

-- `cmd_read` with `cap` the size of the caller's buffer.
unfoldable pub cmd_read : ℕ → ℕ → Bool → In → Read
cmd_read zero cap block s = out_of_fuel
cmd_read (suc fuel) cap block s =
    let (got, s') = cmd_fill block s in
    let again = cmd_read fuel cap block s' in
    elim (split_line s.buf) [
      | some (l, rest) ↦ line (take (cap - 1) l) (record s { buf = rest })
      | none ↦ if got then again else no_line s'
    ]

-- Whether the buffer holds a line that begins a batch command.
abbrev pub starts_batch : List ℕ → Bool
starts_batch (x ∷ y ∷ z ∷ rest) = (x == b'B') && (y == b' ')
starts_batch other = false

-- `cmd_next_is_batch`; `none` when the fuel is out.
unfoldable pub cmd_next_is_batch : ℕ → In → Option (Bool × In)
cmd_next_is_batch zero s = none
cmd_next_is_batch (suc fuel) s =
    let (got, s') = cmd_fill false s in
    let again = cmd_next_is_batch fuel s' in
    elim (split_line s.buf) [
      | some l ↦ some (starts_batch s.buf, s)
      | none ↦ if got then again else some (false, s')
    ]

-- Enough fuel for the loops: each round but the last uses up a byte of the feed.
abbrev pub feed_size : List Item → ℕ
feed_size [] = 0
feed_size (chunk c ∷ feed) = suc (length c + feed_size feed)
feed_size (pause ∷ feed) = suc (feed_size feed)
