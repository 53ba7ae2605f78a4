-- ===== src/Addon/Keys.antt =====
-- The keys of the addon (`WeTypeEngine::processKey` of fcitx5-wetype/src/wetype.cpp). A function
-- here gives whether the key is consumed (`event.filterAndAccept`) and the new state.
use wetype_ime_linux.Base.{
  ℕ, ◌+◌, ◌-◌, List, [], ◌∷◌, ◌++◌, Option, none, some, Bool, true, false, not, ◌&&◌, ◌||◌, ◌==◌,
  ltb, leb, if◌then◌else◌, codes, length, min, get_elem?,
}
use wetype_ime_linux.Addon.Punctuation.{is_nil, owns_punctuation}
use wetype_ime_linux.Addon.State.{
  Sym, ascii, kp_digit, kp_add, left, right, up, down, page_up, page_down, enter, backspace, escape,
  other, Front, QueuedKey, no_handler, Addon, next, is_ic, get_ic, page_size, normalize_page,
  printable_text, update_ui, set_punct, after_digit_is, remember_trailing, fullwidth_punctuation,
  punct_for,
}
use wetype_ime_linux.Addon.Sending.{post, ensure_engine, request_candidates}
use wetype_ime_linux.Addon.Composing.{
  commit_string, commit_text, commit_candidate, select_line, clear_all, clear_shown, drop_cands,
  fallback_pending, arm_pending,
}

-- A keysym as a kind and a value.
unfoldable pub sym_pair : Sym → ℕ × ℕ
sym_pair (ascii c) = (0, c)
sym_pair (kp_digit d) = (1, d)
sym_pair (other n) = (2, n)
sym_pair kp_add = (3, 0)
sym_pair left = (3, 1)
sym_pair right = (3, 2)
sym_pair up = (3, 3)
sym_pair down = (3, 4)
sym_pair page_up = (3, 5)
sym_pair page_down = (3, 6)
sym_pair enter = (3, 7)
sym_pair backspace = (3, 8)
sym_pair escape = (3, 9)

unfoldable pub is_sym : Sym → Sym → Bool
is_sym a b = ((sym_pair a).0 == (sym_pair b).0) && ((sym_pair a).1 == (sym_pair b).1)

-- `release` erased: the first release of that key.
unfoldable pub drop_release : Sym → List QueuedKey → List QueuedKey
drop_release y [] = []
drop_release y (k ∷ ks) =
    let rest = drop_release y ks in if k.release && is_sym k.raw.sym y then ks else k ∷ rest

-- The last press erased, and the first release of it after; none when there is no press.
unfoldable pub drop_press : List QueuedKey → Option (List QueuedKey)
drop_press [] = none
drop_press (k ∷ ks) = elim (drop_press ks) [
  | some rest ↦ some (k ∷ rest)
  | none ↦ if k.release then none else some (drop_release k.raw.sym ks)
]

-- `buf_.pop_back()`.
unfoldable pub drop_last : List ℕ → List ℕ
drop_last [] = []
drop_last (c ∷ cs) = let rest = drop_last cs in if is_nil cs then [] else c ∷ rest

-- The frozen pinyin loses a letter while candidates are awaited, up to the `send`.
unfoldable pub frozen_shorter : Addon → Addon
frozen_shorter s = record s {
  buf = drop_last s.buf;
  revision = next s.revision;
  current = false;
  cands = [];
  covers = [];
}

-- BackSpace while candidates are awaited.
unfoldable pub pending_backspace : Front → ℕ → Addon → Addon
pending_backspace x ic s =
    let s₁ = post x (codes "C") no_handler (frozen_shorter s) in
    elim (drop_press s.queued) [
      | some ks ↦ update_ui x ic (record s { queued = ks })
      | none ↦
          if is_nil s₁.buf
          then fallback_pending x ic s₁
          else update_ui x ic (request_candidates (post x) s₁.buf s₁)
    ]

abbrev pub max_queued : ℕ
max_queued = 256

-- A key that waits for the candidates.
unfoldable pub defer_key : Front → ℕ → QueuedKey → Addon → Addon
defer_key x ic e s =
    let s₁ = record s { queued = s.queued ++ e ∷ [] } in
    if leb max_queued (length s₁.queued) then fallback_pending x ic s₁ else update_ui x ic s₁

-- A key while candidates are awaited.
unfoldable pub pending_key : Front → ℕ → QueuedKey → Addon → Bool × Addon
pending_key x ic e s =
    if not e.release && not e.key.shortcut && is_sym e.key.sym escape
    then (true, clear_shown x ic s)
    else if not e.release && not e.key.shortcut && is_sym e.key.sym backspace
    then (true, pending_backspace x ic s)
    else if not e.release && (is_nil (printable_text x e.key) || e.key.shortcut)
    then (not e.key.shortcut && is_sym e.key.sym enter, fallback_pending x ic s)
    else (true, defer_key x ic e s)

abbrev pub in_range : ℕ → ℕ → Sym → Bool
in_range lo hi (ascii c) = leb lo c && leb c hi
in_range lo hi y = false

abbrev pub is_kp_digit : Sym → Bool
is_kp_digit (kp_digit d) = true
is_kp_digit y = false

-- A digit typed with nothing composed is remembered.
unfoldable pub note_digit : ℕ → Sym → Addon → Addon
note_digit ic y s =
    if is_nil s.buf && (in_range b'0' b'9' y || is_kp_digit y)
    then set_punct ic (after_digit_is true) s
    else s

abbrev pub code_of : Sym → ℕ
code_of (ascii c) = c
code_of y = 0

-- Shift and a letter, with nothing composed.
unfoldable pub type_capital : Front → ℕ → ℕ → Addon → Addon
type_capital x ic c s = commit_string ic (c ∷ []) (remember_trailing x ic (c ∷ []) s)

abbrev pub lower : ℕ → ℕ
lower c = if leb b'a' c then c else c + 32

-- `buf_ += c`.
unfoldable pub letter_added : ℕ → Addon → Addon
letter_added c s = record s { revision = next s.revision; buf = s.buf ++ c ∷ []; current = false }

-- A letter; a buffer that the engine lost is sent again.
unfoldable pub type_letter : Front → ℕ → ℕ → Addon → Addon
type_letter x ic c s =
    let s₀ = record s { recovery_tried = if is_nil s.buf then false else s.recovery_tried } in
    let replay = not s.proc.alive && not (is_nil s.buf) in
    let s₁ = update_ui x ic (letter_added c (ensure_engine (post x) s₀)) in
    request_candidates (post x) (if replay then s₁.buf else c ∷ []) s₁

abbrev pub at : ℕ → ℕ → Addon → Addon
at w sel s = record s { window_start = w; selected = sel }

-- The arrows; at an edge nothing moves.
unfoldable pub arrow_move : Front → Sym → Addon → Addon
arrow_move x y s =
    let page = page_size x in
    let w = s.window_start in
    if is_sym y left && ltb w s.selected
    then at w (s.selected - 1) s
    else if is_sym y right && ltb (s.selected + 1) (min (w + page) (length s.cands))
    then at w (s.selected + 1) s
    else if is_sym y up && ltb 0 w
    then at (w - page) (w - page) s
    else if is_sym y down && ltb (w + page) (length s.cands)
    then at (w + page) (w + page) s
    else s

unfoldable pub page_back : Front → ℕ → Addon → Addon
page_back x ic s =
    let w = s.window_start - page_size x in
    if ltb 0 s.window_start then update_ui x ic (at w w s) else s

unfoldable pub page_next : Front → ℕ → Addon → Addon
page_next x ic s =
    let w = s.window_start + page_size x in
    if s.current && ltb w (length s.cands) then update_ui x ic (at w w s) else s

-- Whether a candidate can be chosen.
abbrev pub can_choose : Addon → Bool
can_choose s = s.current && not (is_nil s.cands)

-- `cands_[selected_]`, or the buffer where no candidate can be chosen.
unfoldable pub text_chosen : Addon → List ℕ
text_chosen s =
    if not (can_choose s)
    then s.buf
    else elim (get_elem? s.cands s.selected) [ none ↦ [] | some t ↦ t ]

-- A punctuation key while composing.
unfoldable pub punctuate : Front → ℕ → ℕ → Addon → Bool × Addon
punctuate x ic c s =
    let text = text_chosen s in
    let (punct, s₁) = punct_for ic c (fullwidth_punctuation x ic c text s) s in
    let s₂ = if can_choose s then post x (select_line s.selected) no_handler s₁ else s₁ in
    if is_nil punct then (false, s₁) else (true, commit_text x ic (text ++ punct) s₂)

-- A punctuation key with nothing composed.
unfoldable pub punctuate_idle : Front → ℕ → ℕ → Addon → Bool × Addon
punctuate_idle x ic c s =
    let (punct, s₁) = punct_for ic c true s in
    if fullwidth_punctuation x ic c [] s
    then (true, commit_string ic punct (remember_trailing x ic punct s₁))
    else (false, s)

-- A digit that chooses from the page; 0 is the tenth.
unfoldable pub choose_digit : Front → ℕ → ℕ → Addon → Bool × Addon
choose_digit x ic c s =
    let ordinal = if c == b'0' then 9 else c - b'1' in
    let i = s.window_start + ordinal in
    if ltb ordinal (page_size x) && can_choose s && ltb i (length s.cands)
    then (true, commit_candidate x ic i s)
    else (false, s)

-- Space: the candidate selected, or the wait for candidates.
unfoldable pub press_space : Front → ℕ → Addon → Bool × Addon
press_space x ic s =
    if is_nil s.buf
    then (false, s)
    else if can_choose s
    then (true, commit_candidate x ic s.selected s)
    else (true, arm_pending x ic s)

-- BackSpace, up to the `send`.
unfoldable pub shorter : Addon → Addon
shorter s = record s { buf = drop_last s.buf; revision = next s.revision; current = false }

unfoldable pub press_backspace : Front → ℕ → Addon → Bool × Addon
press_backspace x ic s =
    let s₁ = post x (codes "C") no_handler (shorter s) in
    if is_nil s.buf
    then (false, s)
    else if is_nil s₁.buf
    then (true, update_ui x ic (drop_cands s₁))
    else (true, update_ui x ic (request_candidates (post x) s₁.buf s₁))

-- The keys below the punctuation in the chain of `processKey`.
unfoldable pub press_rest : Front → ℕ → Sym → Addon → Bool × Addon
press_rest x ic y s =
    if in_range b'1' b'9' y || (is_sym y (ascii b'0') && leb 10 (page_size x))
    then choose_digit x ic (code_of y) s
    else if is_sym y (ascii b' ')
    then press_space x ic s
    else if is_sym y enter && not (is_nil s.buf)
    then (true, commit_text x ic s.buf s)
    else if is_sym y backspace
    then press_backspace x ic s
    else if is_sym y escape && not (is_nil s.buf)
    then (true, clear_shown x ic s)
    else (false, s)

abbrev pub is_arrow : Sym → Bool
is_arrow y = is_sym y left || is_sym y right || is_sym y up || is_sym y down

abbrev pub is_next : Sym → Bool
is_next y = is_sym y (ascii b'=') || is_sym y (ascii b'+') || is_sym y kp_add || is_sym y page_down

-- A press, after the page is in order: the chain of `processKey`.
unfoldable pub press_key : Front → ℕ → QueuedKey → Addon → Bool × Addon
press_key x ic e s =
    let y = e.key.sym in
    let composing = not (is_nil s.buf) in
    if not composing && in_range b'A' b'Z' y && e.raw.shift
    then (true, type_capital x ic (code_of y) s)
    else if in_range b'a' b'z' y || in_range b'A' b'Z' y
    then (true, type_letter x ic (lower (code_of y)) s)
    else if composing && can_choose s && is_arrow y
    then (true, update_ui x ic (arrow_move x y s))
    else if composing && (is_sym y (ascii b'-') || is_sym y page_up)
    then (true, page_back x ic s)
    else if composing && is_next y
    then (true, page_next x ic s)
    else if in_range 0 127 y && owns_punctuation (code_of y)
    then (if composing then punctuate x ic (code_of y) s else punctuate_idle x ic (code_of y) s)
    else press_rest x ic y s

-- The page is put in order first, and shown if that changed it.
unfoldable pub page_shown : Front → ℕ → Addon → Addon
page_shown x ic s =
    let (changed, s₁) = normalize_page x s in if changed then update_ui x ic s₁ else s₁

-- The context that the key is for.
unfoldable pub enter_ic : Front → ℕ → Addon → Addon
enter_ic x ic s =
    let s₁ = if is_ic (get_ic x s.ic_ref) ic then s else clear_all x s in
    record s₁ { ic_ref = some ic }

-- A key with no candidates awaited.
unfoldable pub free_key : Front → ℕ → QueuedKey → Addon → Bool × Addon
free_key x ic e s =
    if e.key.shortcut || e.release
    then (false, s)
    else press_key x ic e (note_digit ic e.key.sym (page_shown x ic s))

-- `processKey`.
unfoldable pub process_key : Front → ℕ → QueuedKey → Addon → Bool × Addon
process_key x ic e s =
    let s₁ = enter_ic x ic s in if s₁.pending then pending_key x ic e s₁ else free_key x ic e s₁
