-- ===== src/Addon/State.antt =====
-- The state of the addon (`WeTypeEngine` of fcitx5-wetype/src/wetype.cpp), its pages and its panel.
-- An input context is a number. `Front` is what Fcitx answers during an event; `out` is what the
-- addon hands to the application, newest last. The outcomes of the system calls to come are `calls`;
-- past its end they succeed. `stuck` is set when the nesting of `send` runs out of fuel.
use wetype_ime_linux.Base.{
  ℕ, suc, ◌+◌, ◌-◌, ◌*◌, ◌/◌, ◌%◌, ◌^◌, List, [], ◌∷◌, ◌++◌, Option, none, some, Bool, true, false,
  not, ◌&&◌, ◌||◌, ◌==◌, ltb, leb, if◌then◌else◌, codes, length, take, drop, min,
}
use wetype_ime_linux.Base.Int.{ℤ, pos, leb_ℤ, pos_part}
use wetype_ime_linux.Addon.Punctuation.{
  is_nil, punctuation, is_quote, digit_exception, ends_with_digit,
}
use wetype_ime_linux.Addon.Segment.{pinyin_preedit}
use wetype_ime_linux.Addon.Glossary.{Entries, lookup}
use wetype_ime_linux.Addon.Proc.{Proc}

-- The keysyms that the addon tells apart; those below 0x80 are their ASCII code.
pub data Sym : Type 0 where
  ascii : ℕ → Sym
  kp_digit : ℕ → Sym
  kp_add left right up down page_up page_down enter backspace escape : Sym
  other : ℕ → Sym

-- `shortcut` is whether one of the modifiers Ctrl, Alt, Super, Meta, Hyper or Mod5 is held.
pub record Key : Type 0 where
  pub sym : Sym
  pub shortcut : Bool
  pub shift : Bool

pub record QueuedKey : Type 0 where
  pub key : Key
  pub raw : Key
  pub release : Bool
  pub time : ℕ

-- `PunctuationState`.
pub record Punct : Type 0 where
  pub after_digit : Bool
  pub double_opens : Bool
  pub single_opens : Bool

pub record Front : Type 0 where
  pub page_setting : ℤ
  -- whether the input context is for passwords, addresses or numbers
  pub structured : ℕ → Bool
  -- whether the input context still exists
  pub live : ℕ → Bool
  pub valid : List ℕ → Bool
  pub glossary : Entries
  -- `Key::keySymToUnicode` and `Key::keySymToUTF8`
  pub unicode_of : Sym → ℕ
  pub utf8_text : Sym → List ℕ

-- What a candidate handler remembers of the moment it was made.
pub record Request : Type 0 where
  pub ref : Option ℕ
  pub epoch : ℕ
  pub buf : List ℕ
  pub revision : ℕ

pub data Handler : Type 0 where
  no_handler spans_handler : Handler
  cand_handler : Request → Handler

pub data Output : Type 0 where
  commit : ℕ → List ℕ → Output
  forward : ℕ → Key → Bool → ℕ → Output

-- The input panel: the context it was shown in, the preedit, the texts and the index marked.
pub record Panel : Type 0 where
  pub owner : ℕ
  pub preedit : List ℕ
  pub shown : List (List ℕ)
  pub cursor : ℕ

pub record Addon : Type 0 where
  pub proc : Proc Handler
  pub buf : List ℕ
  pub cands : List (List ℕ)
  pub covers : List ℤ
  pub spans_enabled : Bool
  pub current : Bool
  pub window_start : ℕ
  pub selected : ℕ
  pub rendered_page : ℕ
  pub recovery_tried : Bool
  pub revision : ℕ
  pub ic_ref : Option ℕ
  pub pending : Bool
  pub queued : List QueuedKey
  -- the armed timer remembers a context and an epoch
  pub timer : Option (ℕ × ℕ)
  pub draining : Bool
  pub epoch : ℕ
  pub restart_armed : Bool
  pub puncts : ℕ → Punct
  pub out : List Output
  pub panel : Option Panel
  pub calls : List Bool
  pub stuck : Bool

-- `++counter` on 64 bits.
abbrev pub next : ℕ → ℕ
next n = (n + 1) % 2 ^ 64

-- `icRef_.get()`.
abbrev pub get_ic : Front → Option ℕ → Option ℕ
get_ic x none = none
get_ic x (some i) = if x.live i then some i else none

abbrev pub is_ic : Option ℕ → ℕ → Bool
is_ic none i = false
is_ic (some j) i = j == i

-- `pageSize`.
unfoldable pub page_size : Front → ℕ
page_size x =
    if leb_ℤ (pos 1) x.page_setting && leb_ℤ x.page_setting (pos 10)
    then pos_part x.page_setting
    else 5

-- `std::clamp` for bounds in order.
abbrev pub clamp : ℕ → ℕ → ℕ → ℕ
clamp v lo hi = if ltb v lo then lo else if ltb hi v then hi else v

-- The page window of `normalizePage`: where it starts and the index selected.
unfoldable pub window_of : ℕ → ℕ → ℕ → ℕ → ℕ × ℕ
window_of page count start selected =
    let start' = clamp start 0 (count - 1) / page * page in
    if count == 0 then (0, 0) else (start', clamp selected start' (min (start' + page) count - 1))

-- `normalizePage`.
unfoldable pub normalize_page : Front → Addon → Bool × Addon
normalize_page x s =
    let (w, sel) = window_of (page_size x) (length s.cands) s.window_start s.selected in
    (
      not (s.window_start == w)
          || not (s.selected == sel)
          || (not (is_nil s.cands) && not (s.rendered_page == page_size x)),
      record s { window_start = w; selected = sel },
    )

-- `printableText`: empty for a control character.
unfoldable pub printable_text : Front → Key → List ℕ
printable_text x k =
    let c = x.unicode_of k.sym in
    if ltb c 32 || (leb 127 c && leb c 159) then [] else x.utf8_text k.sym

-- The presses among the queued keys, as text.
unfoldable pub presses : Front → List QueuedKey → List ℕ
presses x [] = []
presses x (k ∷ ks) =
    let rest = presses x ks in if k.release then rest else printable_text x k.key ++ rest

-- `pendingRaw`.
unfoldable pub pending_raw : Front → Addon → List ℕ
pending_raw x s =
    let space = if s.pending then codes " " else [] in s.buf ++ space ++ presses x s.queued

-- The text of the candidate at a place of the page: its key, the word and the gloss.
unfoldable pub entry_text : Front → ℕ → List ℕ → List ℕ
entry_text x ordinal word =
    let label = if ordinal == 9 then b'0' else b'1' + ordinal in
    let gloss : List ℕ = elim (lookup x.glossary word) [ none ↦ [] | some g ↦ b' ' ∷ g ] in
    label ∷ b' ' ∷ word ++ gloss

unfoldable pub entries_from : Front → ℕ → List (List ℕ) → List (List ℕ)
entries_from x ordinal [] = []
entries_from x ordinal (w ∷ ws) = entry_text x ordinal w ∷ entries_from x (suc ordinal) ws

unfoldable pub preedit_of : Front → Addon → List ℕ
preedit_of x s = if s.pending then pending_raw x s else pinyin_preedit s.buf

-- The panel of a state whose page is in order.
unfoldable pub panel_of : Front → ℕ → Addon → Panel
panel_of x ic s =
    let page = take (page_size x) (drop s.window_start s.cands) in
    record {
      owner = ic;
      preedit = preedit_of x s;
      shown = entries_from x 0 page;
      cursor = s.selected - s.window_start;
    }

-- `updateUI`. The page is in order after `normalizePage`, so its own test of `selected_` is idle.
unfoldable pub update_ui : Front → ℕ → Addon → Addon
update_ui x ic s =
    let s₁ = (normalize_page x s).1 in
    record s₁ { rendered_page = page_size x; panel = some (panel_of x ic s₁) }

-- The property of one input context.
unfoldable pub set_punct : ℕ → (Punct → Punct) → Addon → Addon
set_punct ic f s = record s { puncts = λ i. if i == ic then f (s.puncts i) else s.puncts i }

abbrev pub after_digit_is : Bool → Punct → Punct
after_digit_is b p = record p { after_digit = b }

-- `rememberTrailing`.
unfoldable pub remember_trailing : Front → ℕ → List ℕ → Addon → Addon
remember_trailing x ic text s = set_punct ic (after_digit_is (ends_with_digit x.valid text)) s

-- `fullwidthPunctuation`.
unfoldable pub fullwidth_punctuation : Front → ℕ → ℕ → List ℕ → Addon → Bool
fullwidth_punctuation x ic key text s =
    if x.structured ic
    then false
    else if not (digit_exception key)
    then true
    else if is_nil text
    then not (s.puncts ic).after_digit
    else not (ends_with_digit x.valid text)

abbrev pub pair_opens : ℕ → Punct → Bool
pair_opens key p = if key == b'"' then p.double_opens else p.single_opens

abbrev pub flip_pair : ℕ → Punct → Punct
flip_pair key p =
    if key == b'"'
    then record p { double_opens = not p.double_opens }
    else record p { single_opens = not p.single_opens }

-- `punctFor`: the text, and the state with the pair advanced.
unfoldable pub punct_for : ℕ → ℕ → Bool → Addon → List ℕ × Addon
punct_for ic key wide s =
    let text = punctuation key wide (pair_opens key (s.puncts ic)) in
    if not (is_quote key)
    then (punctuation key wide true, s)
    else (text, if wide && not (is_nil text) then set_punct ic (flip_pair key) s else s)
