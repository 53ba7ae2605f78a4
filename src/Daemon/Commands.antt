-- ===== src/Daemon/Commands.antt =====
-- The commands of `run_daemon` (harness/jinterop.c), as the loop tells them apart, and the loop.
use wetype_ime_linux.Base.{
  ℕ, zero, suc, ◌+◌, ◌/◌, ◌%◌, List, [], ◌∷◌, ◌++◌, Option, none, some, Bool, true, false, not,
  ◌&&◌, ◌||◌, ◌==◌, ltb, if◌then◌else◌, length, take, drop, str_eqb, codes, get_elem?,
}
use wetype_ime_linux.Base.Int.{ℤ, pos, negsuc, ltb_ℤ, pos_part}
use wetype_ime_linux.Registry.{keep_all}
use wetype_ime_linux.Wait.{is_empty}
use wetype_ime_linux.Command.{In, line, no_line, out_of_fuel, cmd_read, feed_size}
use wetype_ime_linux.Fetch.{Choice, clear_choices, until_nul}
use wetype_ime_linux.Daemon.{
  ready, pong, ok, empty, err, bye, ok_num, select_candidate, destroy_session, create_session,
  invoke, Engine, Settings, Daemon, Batch, reply, call, can_reset, send_keys, settle, reply_cands,
  wait_fetch, reply_skips, collect, coalesce, line_size,
}

-- The line without the carriage returns and newlines at its end.
unfoldable pub strip : List ℕ → List ℕ
strip [] = []
strip (c ∷ cs) =
    let rest = strip cs in if is_empty rest && ((c == b'\n') || (c == b'\r')) then [] else c ∷ rest

-- `strstr(name, part) != NULL`.
unfoldable pub starts_with : List ℕ → List ℕ → Bool
starts_with [] xs = true
starts_with (p ∷ ps) [] = false
starts_with (p ∷ ps) (x ∷ xs) = (p == x) && starts_with ps xs

unfoldable pub contains : List ℕ → List ℕ → Bool
contains part [] = is_empty part
contains part (x ∷ xs) = starts_with part (x ∷ xs) || contains part xs

-- `%zu`, on fuel that the number itself bounds.
unfoldable pub decimal : ℕ → ℕ → List ℕ
decimal zero n = []
decimal (suc fuel) n =
    let rest = decimal fuel (n / 10) in
    if ltb n 10 then (b'0' + n) ∷ [] else rest ++ (b'0' + n % 10) ∷ []

-- The C++ symbol of a function of that name; `snprintf` cuts it to its buffer.
unfoldable pub mangled : List ℕ → List ℕ → List ℕ
mangled name args =
    take 255 (codes "_Z" ++ decimal (suc (length name)) (length name) ++ name ++ args)

-- The first of the four symbols that the engine has.
unfoldable pub first_symbol : Engine → List (List ℕ) → Option (List ℕ)
first_symbol e [] = none
first_symbol e (x ∷ xs) = if e.has_symbol x then some x else first_symbol e xs

unfoldable pub find_symbol : Engine → List ℕ → Option (List ℕ)
find_symbol e name = first_symbol e (
    name
    ∷ mangled name (codes "P7_JNIEnvP8_jobject")
    ∷ mangled name (codes "P7_JNIEnvP7_jclass")
    ∷ mangled name (codes "P7_JNIEnvP8_jobjectl")
    ∷ [])

-- The argument after the environment and the object, if there is one.
unfoldable pub argument_of : List ℕ → ℤ → Option ℤ
argument_of name sid =
    if contains (codes "session") name
    then some sid
    else if contains (codes "enrich") name
    then some (pos 0)
    else none

-- `X <name>`.
unfoldable pub do_invoke : Engine → List ℕ → Daemon → Daemon
do_invoke e name s = elim (find_symbol e name) [
  | none ↦ reply (ok_num (negsuc 0)) s
  | some x ↦
      let arg = argument_of name s.sid in reply (ok_num (e.answer x arg)) (call e (invoke x arg) s)
]

-- The batches taken in with a line `L` or `B`.
unfoldable pub gather : Bool → List ℕ → In → Option Batch
gather single keys i =
    let b : Batch = record { keys = take 511 keys; skipped = 0; input = i } in
    if single then some b else coalesce (suc (length i.buf + feed_size i.feed)) b

-- `!*keys || !sid`.
unfoldable pub no_keys : Batch → Daemon → Bool
no_keys b s = is_empty b.keys || ((pos_part s.sid == 0) && not (ltb_ℤ s.sid (pos 0)))

-- From the keys on: they are sent, the candidates awaited and the replies written.
unfoldable pub do_keys : Engine → Settings → Bool → Batch → Daemon → Option Daemon
do_keys e c single b s =
    if no_keys b s then some (reply empty (reply_skips b.skipped s)) else elim (settle s) [
      | none ↦ none
      | some s₁ ↦
          let s₂ = send_keys e single b.keys s₁ in
          elim (wait_fetch e c (if s₂.sent_known then s₂.sent else []) s₂) [
            | none ↦ none
            | some (got, s₃) ↦ some (collect e c (reply_cands got (reply_skips b.skipped s₃)))
          ]
    ]

-- `L` and `B`.
unfoldable pub do_input : Engine → Settings → Bool → List ℕ → Daemon → Option Daemon
do_input e c single keys s = elim (gather single keys s.input) [
  | none ↦ none
  | some b ↦ do_keys e c single b (record s { input = b.input })
]

-- Whether a selection leaves letters behind; the sign of `cover` is written out.
unfoldable pub is_partial : Daemon → ℤ → Bool
is_partial s cover =
    s.spans && s.sent_known && ltb_ℤ (pos 0) cover && ltb (pos_part cover) (length s.sent)

-- From the selected candidate on.
unfoldable pub do_choose : Engine → Settings → Choice → Daemon → Option Daemon
do_choose e c x s = elim (settle s) [
  | none ↦ none
  | some s₁ ↦
      let s₂ = call e (select_candidate x.text x.id) s₁ in
      if not (is_partial s x.cover)
      then some (reply ok (record s₂ { sent = []; sent_known = false }))
      else let rest = drop (pos_part x.cover) s.sent in
        elim (wait_fetch e c rest (record s₂ { sent = rest })) [
          | none ↦ none
          | some (got, s₃) ↦ some (reply_cands got s₃)
        ]
]

-- `g_cid[idx]` is not NULL.
unfoldable pub has_id : Choice → Bool
has_id x = elim x.id [ none ↦ false | some bs ↦ true ]

-- `S <rank>`: a candidate without an id cannot be selected. `atoi` gives the rank.
unfoldable pub do_select : Engine → Settings → ℤ → Daemon → Option Daemon
do_select e c (negsuc n) s = some (reply err s)
do_select e c (pos n) s = elim (get_elem? s.f.choices n) [
  | none ↦ some (reply err s)
  | some x ↦ if has_id x then do_choose e c x s else some (reply err s)
]

-- The end of the iterator in use.
unfoldable pub drop_current : Daemon → Daemon
drop_current s =
    if s.f.cur_it == 0
    then s
    else record s { f = record (s.f) { cur_it = 0; deleted = s.f.deleted ++ s.f.cur_it ∷ [] } }

-- `C`, after the late events are dropped: a new session.
unfoldable pub renew : Engine → Daemon → Daemon
renew e s =
    let s₂ = drop_current (record s { f = clear_choices s.f }) in
    let s₃ = call e create_session (call e destroy_session s₂) in
    record s₃ { sid = e.session s₃.calls; sent = []; sent_known = true; since_gc = 0 }

unfoldable pub do_reset : Engine → Daemon → Option Daemon
do_reset e s = elim (settle s) [ none ↦ none | some s₁ ↦ some (reply ok (renew e s₁)) ]

-- What the loop does with a line: it goes on, or it ends.
pub data Next : Type 0 where
  go_on : Daemon → Next
  quit : Daemon → Next

abbrev pub going : Option Daemon → Option Next
going none = none
going (some s) = some (go_on s)

-- Whether the line is the letter and a space, and what follows.
unfoldable pub after_letter : ℕ → List ℕ → Option (List ℕ)
after_letter x (a ∷ b ∷ rest) = if (a == x) && (b == b' ') then some rest else none
after_letter x other = none

abbrev pub first_is : ℕ → List ℕ → Bool
first_is x [] = false
first_is x (c ∷ cs) = c == x

-- The last commands: `L`, `B`, `S`, `C`, and anything else.
unfoldable pub handle_input : Engine → Settings → List ℕ → Daemon → Option Next
handle_input e c l s = elim (after_letter b'L' l) [
  | some keys ↦ going (do_input e c true keys s)
  | none ↦ elim (after_letter b'B' l) [
    | some keys ↦ going (do_input e c false keys s)
    | none ↦
        if first_is b'S' l
        then going (do_select e c (c.atoi (drop 1 l)) s)
        else if str_eqb l (codes "C") && can_reset e
        then going (do_reset e s)
        else some (go_on (reply err s))
  ]
]

-- The body of the loop, on a line as `cmd_read` gives it.
unfoldable pub handle : Engine → Settings → List ℕ → Daemon → Option Next
handle e c raw s =
    let l = strip (until_nul raw) in
    if is_empty l
    then some (go_on s)
    else if str_eqb l (codes "Q")
    then some (quit s)
    else if str_eqb l (codes "PING")
    then some (go_on (reply pong s))
    else elim (after_letter b'X' l) [
      | some name ↦ some (go_on (do_invoke e name s))
      | none ↦
          if str_eqb l (codes "OPT spans")
          then some (go_on (reply ok (record s { spans = true })))
          else if str_eqb l (codes "SAVE")
          then some (go_on (reply ok s))
          else handle_input e c l s
    ]

-- What follows the loop: the iterator goes back, and the session ends so that the engine saves.
unfoldable pub finish : Engine → Daemon → Daemon
finish e s =
    let gone = if s.f.cur_it == 0 then s.f.deleted else s.f.deleted ++ s.f.cur_it ∷ [] in
    let s₂ = record s { f = clear_choices (record (s.f) { deleted = gone }) } in
    reply bye (if ltb_ℤ (pos 0) s.sid && e.has_destroy then call e destroy_session s₂ else s₂)

-- The loop, with the commands that are left on fuel; `none` is a schedule that ends first.
unfoldable pub daemon_loop : ℕ → Engine → Settings → Daemon → Option Daemon
daemon_loop zero e c s = none
daemon_loop (suc fuel) e c s =
    elim (cmd_read (suc (feed_size s.input.feed)) line_size true s.input) [
      | out_of_fuel ↦ none
      | no_line i ↦ some (finish e (record s { input = i }))
      | line l i ↦ elim (handle e c l (record s { input = i })) [
        | none ↦ none
        | some (quit s') ↦ some (finish e s')
        | some (go_on s') ↦ daemon_loop fuel e c s'
      ]
    ]

-- The state in which the loop begins.
unfoldable pub start_daemon : ℤ → Daemon → Daemon
start_daemon sid s = reply ready (record s {
  sid = sid;
  sent = [];
  sent_known = true;
  spans = false;
  since_gc = 0;
  f = record (s.f) { reg = keep_all s.f.reg };
})
