-- ===== src/Sessions.antt =====
-- Runs of the model of the addon (fcitx5-wetype/src/) on concrete inputs.
use wetype_ime_linux.Base.{
  ℕ, ◌≤◌, ◌≡◌, refl, List, [], ◌∷◌, ◌++◌, none, some, true, false, ◌&&◌, length, map, codes, arith,
}
use wetype_ime_linux.Base.Int.{pos, negsuc}
use wetype_ime_linux.Fetch.{Choice}
use wetype_ime_linux.Protocol.{print_cands, shown_choice, IsField}
use wetype_ime_linux.Protocol.Line.{split_line-print_cands}
use wetype_ime_linux.Command.{newline, split_line}
use wetype_ime_linux.Addon.Punctuation.{
  is_nil, punctuation, glyphs, glyph_of, owns_punctuation, bytes,
}
use wetype_ime_linux.Addon.Segment.{segment_pinyin}
use wetype_ime_linux.Addon.Syllables.{unspaced, segment_pinyin-unspaced}
use wetype_ime_linux.Addon.Glossary.{load, lookup, get_delim}
use wetype_ime_linux.Addon.Glosses.{last_gloss, load_lem}
use wetype_ime_linux.Addon.Proc.{Proc, dead, serving}
use wetype_ime_linux.Addon.Pairing.{
  Event, on_start, on_send, on_reply, run, handed, called, IsIdle, run_pairs,
}
use wetype_ime_linux.Addon.State.{
  Sym, ascii, QueuedKey, Front, Request, Handler, cand_handler, commit, Addon,
}
use wetype_ime_linux.Addon.Sending.{is_current, post}
use wetype_ime_linux.Addon.Composing.{commit_candidate, fallback_pending}
use wetype_ime_linux.Addon.Answering.{cand_reply, start_addon, parse_cands}
use wetype_ime_linux.Addon.Recovery.{typing, post-typing}
use wetype_ime_linux.Addon.Machine.{key, says, hangs_up, restart_due, run_holds, run as run_addon}
use wetype_ime_linux.Addon.Outputs.{
  Gave, left_by, releases_of, typed, commit_candidate-Gave, fallback_pending-out, cand_reply-out,
}

abbrev code : Sym → ℕ
code (ascii c) = c
code y = 0

abbrev desk : Front
desk = record {
  page_setting = pos 5;
  structured = λ i. false;
  live = λ i. true;
  valid = λ t. true;
  glossary = [];
  unicode_of = code;
  utf8_text = λ y. code y ∷ [];
}

abbrev busy : Proc Handler
busy = record {
  alive = true;
  in_open = true;
  out_open = true;
  rbuf = [];
  stage = serving;
  pending = [];
  watching = true;
  watchdog = false;
  fail_count = 0;
  gave_up = false;
  wire = [];
}

abbrev plain_key : ℕ → QueuedKey
plain_key c = record {
  key = record { sym = ascii c; shortcut = false; shift = false };
  raw = record { sym = ascii c; shortcut = false; shift = false };
  release = false;
  time = 7;
}

-- "nihaoshijie" is being composed, with two candidates, the first for its first five letters; the
-- second write to come fails.
abbrev composing : Addon
composing = record {
  proc = busy;
  buf = codes "nihaoshijie";
  cands = bytes "你好" ∷ bytes "你好世界" ∷ [];
  covers = pos 5 ∷ pos 11 ∷ [];
  spans_enabled = true;
  current = true;
  window_start = 0;
  selected = 1;
  rendered_page = 5;
  recovery_tried = false;
  revision = 11;
  ic_ref = some 1;
  pending = false;
  queued = [];
  timer = none;
  draining = false;
  epoch = 2;
  restart_armed = false;
  puncts = λ i. record { after_digit = false; double_opens = true; single_opens = true };
  out = [];
  panel = none;
  calls = true ∷ false ∷ [];
  stuck = false;
}

-- A Space waits, and a "b" was typed after it.
abbrev waiting : Addon
waiting = record composing {
  current = false;
  cands = [];
  covers = [];
  pending = true;
  queued = plain_key b'b' ∷ [];
}

abbrev request : Request
request = record { ref = some 1; epoch = 2; buf = codes "nihao"; revision = 5 }

run_holds_example :
    let s =
      run_addon
        ((desk, says (codes "READY"))
          ∷ (desk, key 1 (plain_key b'n'))
          ∷ (desk, key 1 (plain_key b' '))
          ∷ (desk, hangs_up)
          ∷ (desk, restart_due)
          ∷ [])
        (start_addon desk (true ∷ true ∷ false ∷ [])) in
    (length s.covers ≡ length s.cands)
    × (length s.queued ≤ 255)
    × (s.pending ≡ true → is_nil s.buf ≡ false)
    × (s.stuck ≡ false)
run_holds_example = run_holds desk (true ∷ true ∷ false ∷ []) (
    (desk, says (codes "READY"))
    ∷ (desk, key 1 (plain_key b'n'))
    ∷ (desk, key 1 (plain_key b' '))
    ∷ (desk, hangs_up)
    ∷ (desk, restart_due)
    ∷ [])

outdated : (waiting.pending && is_current request waiting) ≡ false
unfolding is_current
outdated = refl

cand_reply-out_example : (cand_reply desk request (codes "CAND\t5:N") waiting).out ≡ []
cand_reply-out_example = cand_reply-out desk request (codes "CAND\t5:N") waiting outdated

commit_candidate-Gave_example :
    Gave 1
      (bytes "你好")
      (left_by desk 1 (pos 5) (codes "nihaoshijie"))
      composing
      (commit_candidate desk 1 0 composing)
commit_candidate-Gave_example = commit_candidate-Gave desk 1 0 (bytes "你好") composing refl refl

fallback_pending-out_example :
    (fallback_pending desk 1 waiting).out
    ≡ commit 1 (codes "nihaoshijie" ++ b' ' ∷ typed desk 1 waiting.queued)
      ∷ releases_of desk 1 waiting.queued
fallback_pending-out_example = fallback_pending-out desk 1 waiting refl

post-typing_example : typing (post desk (codes "C") (cand_handler request) waiting) ≡ typing waiting
post-typing_example = post-typing desk (codes "C") (cand_handler request) waiting

-- A process with two commands unanswered.
abbrev asked : Proc ℕ
asked = record {
  alive = true;
  in_open = true;
  out_open = true;
  rbuf = [];
  stage = serving;
  pending = 1 ∷ 2 ∷ [];
  watching = true;
  watchdog = false;
  fail_count = 0;
  gave_up = false;
  wire = codes "B n" ∷ codes "B i" ∷ [];
}

asked-IsIdle : IsIdle asked
unfolding IsIdle
asked-IsIdle h = absurd (ground (arith, h))

abbrev traffic : List (Event ℕ)
traffic =
    on_reply (codes "EMPTY")
    ∷ on_send true (codes "B h") 3
    ∷ on_send false (codes "C") 4
    ∷ on_start true
    ∷ []

run_pairs_example :
    called (run traffic asked).1 ++ (run traffic asked).0.pending ≡ (1 ∷ 2 ∷ []) ++ handed traffic
run_pairs_example = run_pairs traffic asked asked-IsIdle

-- A process that never got ready.
abbrev tired : Proc ℕ
tired = record asked {
  alive = false;
  in_open = false;
  out_open = false;
  stage = dead;
  pending = [];
  watching = false;
  fail_count = 5;
}

segment_pinyin-unspaced_example :
    unspaced (segment_pinyin (codes "nihaoxi'anq")) ≡ unspaced (codes "nihaoxi'anq")
segment_pinyin-unspaced_example = segment_pinyin-unspaced (codes "nihaoxi'anq")

comma_owned : owns_punctuation b',' ≡ true
unfolding owns_punctuation punctuation glyphs glyph_of
comma_owned = refl

load_lem_example :
    lookup (load (codes "a\tn. one\nb\ttwo\na\tthree\n")).0 (codes "a")
    ≡ last_gloss (codes "a") (get_delim b'\n' (codes "a\tn. one\nb\ttwo\na\tthree\n")) none
load_lem_example = load_lem (codes "a\tn. one\nb\ttwo\na\tthree\n") (codes "a")

abbrev two_choices : List Choice
two_choices =
    record { text = codes "ni"; id = none; cover = pos 12 }
    ∷ record { text = codes "n"; id = none; cover = negsuc 0 }
    ∷ []

split_line-print_cands_example :
    (split_line (print_cands true two_choices ++ newline ∷ codes "OK\n")
      ≡ some (print_cands true two_choices, codes "OK\n"))
    × (parse_cands true (print_cands true two_choices) ≡ map (shown_choice true) two_choices)
unfolding IsField
split_line-print_cands_example =
    split_line-print_cands true (record { text = codes "ni"; id = none; cover = pos 12 })
      (record { text = codes "n"; id = none; cover = negsuc 0 } ∷ []) (codes "OK\n")
      ((refl, (refl, (refl, tt))), ((refl, (refl, tt)), tt)) ((refl, (refl, tt)), ((refl, tt), tt))
