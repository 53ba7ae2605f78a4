-- ===== src/Protocol.antt =====
-- The candidate line of the protocol: how the daemon prints it (`daemon_reply_cands` of
-- harness/jinterop.c), and that the addon reads it back (fcitx5-wetype/src/wetype.cpp).
pub mod Line
use wetype_ime_linux.Base.{
  ℕ, zero, suc, ◌+◌, ◌-◌, ◌*◌, ◌/◌, ◌%◌, ◌≤◌, ◌<◌, ◌≡◌, refl, ap, ◌∙◌, List, [], ◌∷◌, ◌++◌, some,
  Bool, true, false, ◌||◌, ◌==◌, ltb, if◌then◌else◌, if-both, codes, map, All, Bool-cases, inl, inr,
  arith,
}
use mathlib.Core.List.{append_assoc, append-nil}
use wetype_ime_linux.Base.Int.{ℤ, pos, negsuc}
use wetype_ime_linux.Fetch.{Choice}
use wetype_ime_linux.Daemon.Commands.{decimal, starts_with}
use wetype_ime_linux.Addon.Punctuation.{is_nil, is_blank, is_digit_codepoint}
use wetype_ime_linux.Addon.Glossary.{get_delim}
use wetype_ime_linux.Addon.Answering.{
  split_colon, digits_of, atoi, negate, parse_item, parse_items, parse_cands,
}

-- `%d`.
unfoldable pub print_int : ℤ → List ℕ
print_int (pos n) = decimal (suc n) n
print_int (negsuc n) = b'-' ∷ decimal (suc (suc n)) (suc n)

-- `%d:%s`, or `%s` without spans.
unfoldable pub print_choice : Bool → Choice → List ℕ
print_choice true c = print_int c.cover ++ b':' ∷ c.text
print_choice false c = c.text

unfoldable pub print_choices : Bool → List Choice → List ℕ
print_choices spans [] = []
print_choices spans (c ∷ cs) = b'\t' ∷ print_choice spans c ++ print_choices spans cs

-- The line, without the newline at its end.
unfoldable pub print_cands : Bool → List Choice → List ℕ
print_cands spans cs = codes "CAND" ++ print_choices spans cs

abbrev pub IsDigit : ℕ → Type 0
IsDigit c = is_digit_codepoint c ≡ true

digit_lem : (n : ℕ) → n < 10 → IsDigit (b'0' + n)
unfolding is_digit_codepoint
digit_lem n h = ground (arith, h)

All-snoc : (xs : List ℕ) (c : ℕ) → All IsDigit xs → IsDigit c → All IsDigit (xs ++ c ∷ [])
All-snoc [] c a h = (h, tt)
All-snoc (x ∷ xs) c (g, a) h = (g, All-snoc xs c a h)

tenth : (n : ℕ) → n % 10 < 10
tenth n = omega arith

pub decimal-IsDigit : (fuel n : ℕ) → All IsDigit (decimal fuel n)
unfolding decimal
decimal-IsDigit zero n = tt
decimal-IsDigit (suc fuel) n = elim (Bool-cases (ltb n 10)) [
  | inl e ↦ rw e (digit_lem n (ground (arith, e)), tt)
  | inr e ↦ rw e (
      All-snoc (decimal fuel (n / 10)) (b'0' + n % 10) (decimal-IsDigit fuel (n / 10))
        (digit_lem (n % 10) (tenth n)))
]

one_digit :
    (a n : ℕ) (rest : List ℕ)
    → n < 10
    → digits_of a ((b'0' + n) ∷ rest) ≡ digits_of (a * 10 + n) rest
unfolding digits_of
one_digit a n rest h = rw (digit_lem n h) (ap (λ d. digits_of (a * 10 + d) rest) (less n))
  where
    less : (n : ℕ) → b'0' + n - b'0' ≡ n
    less n = omega arith

-- The digits of a number, and whatever follows.
digits_of-decimal :
    (fuel n : ℕ) (rest : List ℕ)
    → n < fuel
    → digits_of 0 (decimal fuel n ++ rest) ≡ digits_of n rest
unfolding decimal
digits_of-decimal zero n rest h = absurd (below n h)
  where
    below : (n : ℕ) → n < 0 → ⊥
    below n h = omega (arith, h)
digits_of-decimal (suc fuel) n rest h = elim (Bool-cases (ltb n 10)) [
  | inl e ↦ rw e (one_digit 0 n rest (ground (arith, e)) ∙ ap (λ m. digits_of m rest) (nought n))
  | inr e ↦ rw e (
      ap (digits_of 0) (append_assoc (decimal fuel (n / 10)) ((b'0' + n % 10) ∷ []) rest)
      ∙ digits_of-decimal fuel (n / 10) ((b'0' + n % 10) ∷ rest)
          (smaller n fuel (ground (arith, e)) h)
      ∙ one_digit (n / 10) (n % 10) rest (tenth n)
      ∙ ap (λ m. digits_of m rest) (whole n))
]
  where
    smaller : (n fuel : ℕ) → 10 ≤ n → n < suc fuel → n / 10 < fuel
    smaller n fuel g h = omega (arith, g, h)

    whole : (n : ℕ) → n / 10 * 10 + n % 10 ≡ n
    whole n = omega arith

    nought : (n : ℕ) → 0 * 10 + n ≡ n
    nought n = omega arith

digits_end : (n : ℕ) (text : List ℕ) → digits_of n (b':' ∷ text) ≡ n
unfolding digits_of is_digit_codepoint
digits_end n text = refl

-- Digits, then a colon.
split_colon_lem :
    (ds text : List ℕ)
    → All (λ c. (c == b':') ≡ false) ds
    → split_colon (ds ++ b':' ∷ text) ≡ some (ds, text)
unfolding split_colon
split_colon_lem [] text a = refl
split_colon_lem (d ∷ ds) text (h, a) = rw (h, split_colon_lem ds text a) refl

-- A digit is none of the characters that `atoi` or a field looks for.
digit_not :
    (d : ℕ)
    → IsDigit d
    → ((d == b':') ≡ false)
      × ((is_blank d || (d == 11) || (d == 12)) ≡ false)
      × ((d == b'-') ≡ false)
      × ((d == b'+') ≡ false)
unfolding is_digit_codepoint
digit_not d h = ground (arith, h)

no_colon : (ds : List ℕ) → All IsDigit ds → All (λ c. (c == b':') ≡ false) ds
no_colon [] a = tt
no_colon (d ∷ ds) (h, a) = ((digit_not d h).0, no_colon ds a)

-- `atoi` of digits.
atoi_digits :
    (ds rest : List ℕ) (n : ℕ)
    → All IsDigit ds
    → is_nil ds ≡ false
    → digits_of 0 (ds ++ rest) ≡ n
    → atoi (ds ++ rest) ≡ pos n
unfolding atoi
atoi_digits [] rest n a z h = absurd (ground (arith, z))
atoi_digits (d ∷ ds) rest n (g, a) z h =
    let (colon, blank, minus, plus) = digit_not d g in rw (blank, minus, plus) (ap pos h)

nil-append : (xs : List ℕ) (c : ℕ) → is_nil (xs ++ c ∷ []) ≡ false
nil-append [] c = refl
nil-append (x ∷ xs) c = refl

decimal_some : (fuel n : ℕ) → is_nil (decimal (suc fuel) n) ≡ false
unfolding decimal
decimal_some fuel n =
    if-both (λ (r : List ℕ). is_nil r ≡ false) (ltb n 10) ((b'0' + n) ∷ []) _ refl
      (nil-append (decimal fuel (n / 10)) (b'0' + n % 10))

printed_digits : (n : ℕ) (text : List ℕ) → digits_of 0 (decimal (suc n) n ++ b':' ∷ text) ≡ n
printed_digits n text = digits_of-decimal (suc n) n (b':' ∷ text) (omega arith) ∙ digits_end n text

-- A number and a colon are read back.
split_int :
    (c : ℤ) (text : List ℕ) → split_colon (print_int c ++ b':' ∷ text) ≡ some (print_int c, text)
unfolding print_int split_colon
split_int (pos n) text =
    split_colon_lem (decimal (suc n) n) text (no_colon _ (decimal-IsDigit (suc n) n))
split_int (negsuc n) text =
    rw
      (split_colon_lem (decimal (suc (suc n)) (suc n)) text
        (no_colon _ (decimal-IsDigit (suc (suc n)) (suc n))))
      refl

atoi_int : (c : ℤ) (text : List ℕ) → atoi (print_int c ++ b':' ∷ text) ≡ c
unfolding print_int atoi
atoi_int (pos n) text =
    atoi_digits (decimal (suc n) n) (b':' ∷ text) n (decimal-IsDigit (suc n) n) (decimal_some n n)
      (printed_digits n text)
atoi_int (negsuc n) text = ap negate (printed_digits (suc n) text)

-- What the addon keeps of a choice.
unfoldable pub shown_choice : Bool → Choice → List ℕ × ℤ
shown_choice spans c = (c.text, if spans then c.cover else pos 0)

item_of :
    (item before text : List ℕ) (n : ℤ)
    → split_colon item ≡ some (before, text)
    → is_nil text ≡ false
    → atoi item ≡ n
    → parse_item true item ≡ some (text, n)
unfolding parse_item
item_of item before text n e h a = rw (parse_item, e, h, a) refl

parse_item_lem :
    (spans : Bool) (c : Choice)
    → is_nil c.text ≡ false
    → parse_item spans (print_choice spans c) ≡ some (shown_choice spans c)
unfolding print_choice shown_choice parse_item
parse_item_lem true c h =
    item_of _ (print_int c.cover) c.text c.cover (split_int c.cover c.text) h
      (atoi_int c.cover c.text)
parse_item_lem false c h = plain c.text h
  where
    plain : (t : List ℕ) → is_nil t ≡ false → parse_item false t ≡ some (t, pos 0)
    plain t h = rw h refl

abbrev pub NotTab : ℕ → Type 0
NotTab c = (c == b'\t') ≡ false

-- A text that fits in a field of the line.
unfoldable pub IsField : List ℕ → Type 0
IsField f = (is_nil f ≡ false) × All NotTab f

field_step :
    (c : ℕ) (cs l : List ℕ) (ls : List (List ℕ))
    → NotTab c
    → get_delim b'\t' cs ≡ l ∷ ls
    → get_delim b'\t' (c ∷ cs) ≡ (c ∷ l) ∷ ls
unfolding get_delim
field_step c cs l ls h e = rw (h, e) refl

get_delim_field :
    (f rest : List ℕ)
    → All NotTab f
    → get_delim b'\t' (f ++ b'\t' ∷ rest) ≡ f ∷ get_delim b'\t' rest
unfolding get_delim
get_delim_field [] rest a = head rest
  where
    head : (rest : List ℕ) → get_delim b'\t' (b'\t' ∷ rest) ≡ [] ∷ get_delim b'\t' rest
    head rest = refl
get_delim_field (c ∷ f) rest (h, a) =
    field_step c (f ++ b'\t' ∷ rest) f (get_delim b'\t' rest) h (get_delim_field f rest a)

get_delim_last :
    (c : ℕ) (f : List ℕ) → NotTab c → All NotTab f → get_delim b'\t' (c ∷ f) ≡ (c ∷ f) ∷ []
unfolding get_delim
get_delim_last c [] h a = one c h
  where
    one : (c : ℕ) → NotTab c → get_delim b'\t' (c ∷ []) ≡ (c ∷ []) ∷ []
    one c h = rw h refl
get_delim_last c (d ∷ f) h (g, a) = field_step c (d ∷ f) (d ∷ f) [] h (get_delim_last d f g a)

last_field : (f : List ℕ) → IsField f → get_delim b'\t' f ≡ f ∷ []
unfolding IsField
last_field [] (z, a) = absurd (ground (arith, z))
last_field (c ∷ f) (z, (h, a)) = get_delim_last c f h a

digit-NotTab : (ds : List ℕ) → All IsDigit ds → All NotTab ds
unfolding is_digit_codepoint
digit-NotTab [] a = tt
digit-NotTab (d ∷ ds) (h, a) = (other d h, digit-NotTab ds a)
  where
    other : (d : ℕ) → IsDigit d → NotTab d
    other d h = ground (arith, h)

joined_field : (xs ys : List ℕ) → All NotTab xs → All NotTab ys → All NotTab (xs ++ b':' ∷ ys)
joined_field [] ys a b = (refl, b)
joined_field (x ∷ xs) ys (h, a) b = (h, joined_field xs ys a b)

nil-joined : (xs ys : List ℕ) → is_nil (xs ++ b':' ∷ ys) ≡ false
nil-joined [] ys = refl
nil-joined (x ∷ xs) ys = refl

print_int-NotTab : (c : ℤ) → All NotTab (print_int c)
unfolding print_int
print_int-NotTab (pos n) = digit-NotTab _ (decimal-IsDigit (suc n) n)
print_int-NotTab (negsuc n) = (refl, digit-NotTab _ (decimal-IsDigit (suc (suc n)) (suc n)))

print_choice-IsField : (spans : Bool) (c : Choice) → IsField c.text → IsField (print_choice spans c)
unfolding print_choice IsField
print_choice-IsField true c (z, a) =
    (nil-joined (print_int c.cover) c.text, joined_field _ c.text (print_int-NotTab c.cover) a)
print_choice-IsField false c h = h

abbrev pub Printable : Choice → Type 0
Printable c = IsField c.text

get_delim-print_choices :
    (spans : Bool) (c : Choice) (cs : List Choice)
    → All Printable (c ∷ cs)
    → get_delim b'\t' (print_choice spans c ++ print_choices spans cs)
      ≡ map (print_choice spans) (c ∷ cs)
unfolding print_choices IsField
get_delim-print_choices spans c [] (h, a) =
    ap (get_delim b'\t') (append-nil (print_choice spans c))
    ∙ last_field (print_choice spans c) (print_choice-IsField spans c h)
get_delim-print_choices spans c (d ∷ cs) (h, a) =
    get_delim_field (print_choice spans c) (print_choice spans d ++ print_choices spans cs)
      (tabless (print_choice spans c) (print_choice-IsField spans c h))
    ∙ ap (λ ls. print_choice spans c ∷ ls) (get_delim-print_choices spans d cs a)
  where
    tabless : (f : List ℕ) → IsField f → All NotTab f
    tabless f h = h.1

item_step :
    (spans : Bool) (i : List ℕ) (is : List (List ℕ)) (x : List ℕ × ℤ)
    → parse_item spans i ≡ some x
    → parse_items spans (i ∷ is) ≡ x ∷ parse_items spans is
unfolding parse_items
item_step spans i is x e = rw (parse_items, e) refl

parse_items-print_choice :
    (spans : Bool) (cs : List Choice)
    → All Printable cs
    → parse_items spans (map (print_choice spans) cs) ≡ map (shown_choice spans) cs
unfolding parse_items IsField
parse_items-print_choice spans [] a = refl
parse_items-print_choice spans (c ∷ cs) (h, a) =
    item_step spans _ _ _ (parse_item_lem spans c (full c.text h))
    ∙ ap (λ xs. shown_choice spans c ∷ xs) (parse_items-print_choice spans cs a)
  where
    full : (f : List ℕ) → IsField f → is_nil f ≡ false
    full f h = h.0

read_line :
    (spans : Bool) (body : List ℕ)
    → parse_cands spans (codes "CAND" ++ b'\t' ∷ body) ≡ parse_items spans (get_delim b'\t' body)
unfolding parse_cands starts_with parse_items
read_line spans body = refl

-- The addon reads back the candidates the daemon printed, each with its text, and with the number
-- of letters it covers when both sides have the spans on (0 when not), in their order: for at
-- least one candidate, whose texts are not empty and have no tab.
pub parse_cands-print_cands :
    (spans : Bool) (c : Choice) (cs : List Choice)
    → All Printable (c ∷ cs)
    → parse_cands spans (print_cands spans (c ∷ cs)) ≡ map (shown_choice spans) (c ∷ cs)
unfolding print_cands print_choices
parse_cands-print_cands spans c cs a =
    read_line spans (print_choice spans c ++ print_choices spans cs)
    ∙ ap (parse_items spans) (get_delim-print_choices spans c cs a)
    ∙ parse_items-print_choice spans (c ∷ cs) a
