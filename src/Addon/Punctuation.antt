-- ===== src/Addon/Punctuation.antt =====
-- The punctuation keys of the addon (fcitx5-wetype/src/punctuation.h).
-- Text is a list of bytes. `utf8::validate` of Fcitx is the parameter `valid`.
use wetype_ime_linux.Base.{
  ℕ, ◌+◌, ◌/◌, ◌%◌, List, [], ◌∷◌, ◌++◌, Option, none, some, Bool, true, false, not, ◌&&◌, ◌||◌,
  ◌==◌, ltb, leb, if◌then◌else◌, String, codes,
}

-- The bytes of a code point below 2^16.
abbrev pub utf8_of : ℕ → List ℕ
utf8_of c =
    if ltb c 128
    then c ∷ []
    else if ltb c 2048
    then (192 + c / 64) ∷ (128 + c % 64) ∷ []
    else (224 + c / 4096) ∷ (128 + c / 64 % 64) ∷ (128 + c % 64) ∷ []

abbrev pub utf8 : List ℕ → List ℕ
utf8 [] = []
utf8 (c ∷ cs) = utf8_of c ++ utf8 cs

-- A string literal of the source.
abbrev pub bytes : String → List ℕ
bytes s = utf8 (codes s)

-- A case of the `switch`: the key, the wide form, and the one that closes a pair.
pub record Glyph : Type 0 where
  pub key : ℕ
  pub wide : List ℕ
  pub closing : List ℕ
  pub narrow : List ℕ

abbrev plain_glyph : ℕ → String → Glyph
plain_glyph k w = record { key = k; wide = bytes w; closing = bytes w; narrow = k ∷ [] }

abbrev quote_glyph : ℕ → String → String → Glyph
quote_glyph k o c = record { key = k; wide = bytes o; closing = bytes c; narrow = k ∷ [] }

-- The cases, in order; the backslash has no narrow form.
unfoldable pub glyphs : List Glyph
glyphs =
    plain_glyph b',' "，"
    ∷ plain_glyph b'.' "。"
    ∷ plain_glyph b'?' "？"
    ∷ plain_glyph b'!' "！"
    ∷ plain_glyph b':' "："
    ∷ plain_glyph b';' "；"
    ∷ record { key = b'\\'; wide = bytes "、"; closing = bytes "、"; narrow = [] }
    ∷ plain_glyph b'(' "（"
    ∷ plain_glyph b')' "）"
    ∷ plain_glyph b'[' "【"
    ∷ plain_glyph b']' "】"
    ∷ plain_glyph b'{' "｛"
    ∷ plain_glyph b'}' "｝"
    ∷ plain_glyph b'<' "《"
    ∷ plain_glyph b'>' "》"
    ∷ quote_glyph b'"' "“" "”"
    ∷ quote_glyph b'\'' "‘" "’"
    ∷ plain_glyph b'-' "－"
    ∷ plain_glyph b'_' "＿"
    ∷ plain_glyph b'+' "＋"
    ∷ plain_glyph b'=' "＝"
    ∷ plain_glyph b'*' "＊"
    ∷ plain_glyph b'/' "／"
    ∷ plain_glyph b'#' "＃"
    ∷ plain_glyph b'$' "＄"
    ∷ plain_glyph b'%' "％"
    ∷ plain_glyph b'&' "＆"
    ∷ plain_glyph b'@' "＠"
    ∷ plain_glyph b'^' "＾"
    ∷ plain_glyph b'~' "～"
    ∷ plain_glyph b'|' "｜"
    ∷ []

unfoldable pub glyph_of : List Glyph → ℕ → Option Glyph
glyph_of [] k = none
glyph_of (g ∷ gs) k = let rest = glyph_of gs k in if g.key == k then some g else rest

abbrev pub glyph_text : Glyph → Bool → Bool → List ℕ
glyph_text g true true = g.wide
glyph_text g true false = g.closing
glyph_text g false opening = g.narrow

-- `punctuation(key, fullwidth, openQuote)`; the default case is empty.
unfoldable pub punctuation : ℕ → Bool → Bool → List ℕ
punctuation k fullwidth opening = elim (glyph_of glyphs k) [
  | none ↦ []
  | some g ↦ glyph_text g fullwidth opening
]

abbrev pub is_nil {ℓ} : {A : Type ℓ} → List A → Bool
is_nil [] = true
is_nil (x ∷ xs) = false

-- `ownsPunctuation`.
unfoldable pub owns_punctuation : ℕ → Bool
owns_punctuation k = not (is_nil (punctuation k true true))

-- `isQuote`.
unfoldable pub is_quote : ℕ → Bool
is_quote k = (k == b'"') || (k == b'\'')

-- `digitException`.
unfoldable pub digit_exception : ℕ → Bool
digit_exception k = (k == b',') || (k == b'.')

-- `isDigitCodepoint`.
unfoldable pub is_digit_codepoint : ℕ → Bool
is_digit_codepoint c = leb b'0' c && leb c b'9'

abbrev pub is_blank : ℕ → Bool
is_blank c = (c == b' ') || (c == b'\t') || (c == b'\n') || (c == b'\r')

-- `text.remove_suffix(1)` while the last byte is blank.
unfoldable pub trim_blank : List ℕ → List ℕ
trim_blank [] = []
trim_blank (c ∷ cs) = let rest = trim_blank cs in if is_nil rest && is_blank c then [] else c ∷ rest

abbrev pub back : List ℕ → Option ℕ
back [] = none
back (x ∷ []) = some x
back (x ∷ y ∷ ys) = back (y ∷ ys)

-- `endsWithDigit`.
unfoldable pub ends_with_digit : (List ℕ → Bool) → List ℕ → Bool
ends_with_digit valid text =
    let t = trim_blank text in
    elim (back t) [ none ↦ false | some c ↦ valid t && is_digit_codepoint c ]
