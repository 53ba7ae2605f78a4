-- ===== src/Protocol/Line.antt =====
-- The candidate line as the addon finds it in what it has read: cut at the newline that the daemon
-- writes after it (`daemon_reply_cands` of harness/jinterop.c, `onReadable` of
-- fcitx5-wetype/src/wetype.cpp), and read back.
use wetype_ime_linux.Base.{
  ℕ, suc, ◌≡◌, refl, List, [], ◌∷◌, ◌++◌, some, Bool, true, false, ◌==◌, codes, map, All,
  All-append, arith,
}
use wetype_ime_linux.Base.Int.{ℤ, pos, negsuc}
use wetype_ime_linux.Command.{newline, split_line}
use wetype_ime_linux.Fetch.{Choice}
use wetype_ime_linux.Addon.Punctuation.{is_digit_codepoint}
use wetype_ime_linux.Addon.Answering.{parse_cands}
use wetype_ime_linux.Protocol.{
  IsDigit, decimal-IsDigit, print_int, print_choice, print_choices, print_cands, shown_choice,
  Printable, parse_cands-print_cands,
}

abbrev pub NotNewline : ℕ → Type 0
NotNewline c = (c == newline) ≡ false

-- A text without a newline.
abbrev pub IsOneLine : Choice → Type 0
IsOneLine c = All NotNewline c.text

digit-NotNewline : (ds : List ℕ) → All IsDigit ds → All NotNewline ds
unfolding is_digit_codepoint
digit-NotNewline [] a = tt
digit-NotNewline (d ∷ ds) (h, a) = (other d h, digit-NotNewline ds a)
  where
    other : (d : ℕ) → IsDigit d → NotNewline d
    other d h = ground (arith, h)

print_int-NotNewline : (c : ℤ) → All NotNewline (print_int c)
unfolding print_int
print_int-NotNewline (pos n) = digit-NotNewline _ (decimal-IsDigit (suc n) n)
print_int-NotNewline (negsuc n) = (refl, digit-NotNewline _ (decimal-IsDigit (suc (suc n)) (suc n)))

print_choices-NotNewline :
    (spans : Bool) (cs : List Choice) → All IsOneLine cs → All NotNewline (print_choices spans cs)
unfolding print_choices print_choice
print_choices-NotNewline spans [] a = tt
print_choices-NotNewline true (c ∷ cs) (h, a) = (
  refl,
  All-append NotNewline (print_int c.cover ++ b':' ∷ c.text) (print_choices true cs)
      (All-append NotNewline (print_int c.cover) (b':' ∷ c.text) (print_int-NotNewline c.cover)
        (refl, h))
      (print_choices-NotNewline true cs a),
)
print_choices-NotNewline false (c ∷ cs) (h, a) = (
  refl,
  All-append NotNewline c.text (print_choices false cs) h (print_choices-NotNewline false cs a),
)

-- A line without a newline is cut off whole.
split_line-append :
    (l rest : List ℕ) → All NotNewline l → split_line (l ++ newline ∷ rest) ≡ some (l, rest)
unfolding split_line
split_line-append [] rest a = refl
split_line-append (c ∷ l) rest (h, a) = rw (h, split_line-append l rest a) refl

-- The addon cuts the line of candidates that the daemon printed off what it has read, whatever
-- follows, and reads back each candidate with its text, and with the number of letters it covers
-- when both sides have the spans on (0 when not), in their order: for at least one candidate, whose
-- texts are not empty and have neither a tab nor a newline.
pub split_line-print_cands :
    (spans : Bool) (c : Choice) (cs : List Choice) (rest : List ℕ)
    → All Printable (c ∷ cs)
    → All IsOneLine (c ∷ cs)
    → (split_line (print_cands spans (c ∷ cs) ++ newline ∷ rest)
        ≡ some (print_cands spans (c ∷ cs), rest))
      × (parse_cands spans (print_cands spans (c ∷ cs)) ≡ map (shown_choice spans) (c ∷ cs))
unfolding print_cands
split_line-print_cands spans c cs rest a b = (
  split_line-append (codes "CAND" ++ print_choices spans (c ∷ cs)) rest
      (refl, (refl, (refl, (refl, print_choices-NotNewline spans (c ∷ cs) b)))),
  parse_cands-print_cands spans c cs a,
)
