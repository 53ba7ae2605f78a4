-- ===== src/Daemon.antt =====
-- `run_daemon` of harness/jinterop.c: the state of the daemon and the parts of its commands; the
-- commands themselves are in Daemon/Commands.
-- What the engine does is an `Engine`, whose calls may make or pin objects (`react`); what it
-- delivers, and the clock, is the schedule `obs`: each drop and each round of a wait takes what
-- is next, and `t0s` has what the clock reads when a wait begins. `none` is a schedule that ends
-- while the daemon still waits. Log lines are left out.
pub mod Commands
pub mod Kept
pub mod Batches
pub mod Replies
pub mod Answers
pub mod Iterators
pub mod Ledger
pub mod Returned
pub mod Ends
pub mod Sent
use wetype_ime_linux.Base.{
  ℕ, zero, suc, ◌+◌, ◌-◌, List, [], ◌∷◌, ◌++◌, Option, none, some, Bool, true, false, not, ◌&&◌,
  ◌||◌, ◌==◌, ltb, leb, if◌then◌else◌, length, take, drop, replicate,
}
use wetype_ime_linux.Base.Int.{ℤ, pos, negsuc, leb_ℤ}
use wetype_ime_linux.Registry.{Reg, reg_sweep}
use wetype_ime_linux.Wait.{Obs, Wait, Params, wait_cand, drop_events}
use wetype_ime_linux.Command.{
  In, Read, line, no_line, out_of_fuel, cmd_read, cmd_next_is_batch, feed_size,
}
use wetype_ime_linux.Fetch.{Choice, Fetched, fetch_cands, until_nul}

-- A line of the protocol that the daemon writes; `cand` has the mode of `OPT spans`.
pub data Reply : Type 0 where
  ready pong ok skip empty err bye : Reply
  ok_num : ℤ → Reply
  cand : Bool → List Choice → Reply

-- A call of the engine.
pub data Call : Type 0 where
  process_input : List ℕ → Call
  select_candidate : List ℕ → Option (List ℕ) → Call
  destroy_session create_session gc_sessions : Call
  invoke : List ℕ → Option ℤ → Call

-- What `dlsym` finds, and what the engine answers; `resolve` and `answer` are for the command `X`.
pub record Engine : Type 0 where
  pub get_n : Option (ℕ → ℕ → Reg → ℕ × Reg)
  pub react : Call → Reg → Reg
  pub has_create : Bool
  pub has_destroy : Bool
  pub has_gc : Bool
  pub has_symbol : List ℕ → Bool
  pub answer : List ℕ → Option ℤ → ℤ
  pub session : List Call → ℤ

-- `sym_cs && sym_ds`.
unfoldable pub can_reset : Engine → Bool
can_reset e = e.has_create && e.has_destroy

-- The settings read from the environment, and the C library's `atoi`.
pub record Settings : Type 0 where
  pub quiet_ms : ℕ
  pub max_setting : Option ℤ
  pub gc_every : ℤ
  pub atoi : List ℕ → ℤ

-- The locals of `run_daemon`, the state behind it, the calls made and the replies written.
pub record Daemon : Type 0 where
  pub input : In
  pub obs : List Obs
  pub t0s : List ℕ
  pub sid : ℤ
  pub sent : List ℕ
  pub sent_known : Bool
  pub spans : Bool
  pub since_gc : ℕ
  pub f : Fetched
  pub calls : List Call
  pub out : List Reply

-- `WETYPE_QUIET_MS`: `none` is no setting or no number.
unfoldable pub quiet_setting : Option ℤ → ℕ
quiet_setting none = 150
quiet_setting (some (negsuc n)) = 150
quiet_setting (some (pos n)) = if leb 1 n && leb n 2500 then n else 150

unfoldable pub reply : Reply → Daemon → Daemon
reply r s = record s { out = s.out ++ r ∷ [] }

-- A call of the engine, with what it does to the registry.
unfoldable pub call : Engine → Call → Daemon → Daemon
call e c s = record s { calls = s.calls ++ c ∷ []; f = record (s.f) { reg = e.react c s.f.reg } }

-- `daemon_key`.
unfoldable pub daemon_key : Engine → ℕ → ℕ → Daemon → Daemon
daemon_key e op key s = call e (process_input (op ∷ b' ' ∷ key ∷ [])) s

abbrev pub sent_size : ℕ
sent_size = 256

-- The body of the loop over the keys: down, up, and the letter noted while there is room.
unfoldable pub send_key : Engine → ℕ → Daemon → Daemon
send_key e key s =
    let s' = daemon_key e b'u' key (daemon_key e b'd' key s) in
    if s.sent_known && ltb (length s.sent + 1) sent_size
    then record s' { sent = s.sent ++ key ∷ [] }
    else record s' { sent_known = false }

-- The loop over the keys; `L` sends only the first.
unfoldable pub send_keys : Engine → Bool → List ℕ → Daemon → Daemon
send_keys e single [] s = s
send_keys e single (k ∷ ks) s =
    let s' = send_key e k s in if single then s' else send_keys e single ks s'

-- `daemon_drop_events(sym_dci); reg_sweep();`, on the events and the clock that it finds.
unfoldable pub settled : Obs → List Obs → Daemon → Daemon
settled o os s = record s {
  obs = os;
  f = record (s.f) {
    deleted = drop_events s.f.cur_it o.queue s.f.deleted;
    reg = reg_sweep o.now s.f.reg;
  };
}

unfoldable pub settle : Daemon → Option Daemon
settle s = elim s.obs [ [] ↦ none | o ∷ os ↦ some (settled o os s) ]

-- `daemon_reply_cands`, after `daemon_fetch_cands` gave `got` candidates.
unfoldable pub reply_cands : ℕ → Daemon → Daemon
reply_cands got s = reply (if ltb 0 got then cand s.spans s.f.choices else empty) s

unfoldable pub params : Settings → List ℕ → ℕ → Daemon → Params
params c expected t0 s = record {
  expected = expected;
  timeout_ms = 2500;
  quiet_ms = c.quiet_ms;
  t0 = t0;
  cur = s.f.cur_it;
}

-- The fetch with the iterator found, if one was: `got` is 0 where the code has -1.
unfoldable pub fetch_found : Engine → Settings → ℕ → Daemon → ℕ × Daemon
fetch_found e c it s =
    if it == 0
    then (0, s)
    else let f' =
        fetch_cands c.max_setting (elim e.get_n [ none ↦ none | some g ↦ some (g it) ]) it s.f in
      (length f'.choices, record s { f = f' })

-- The state after a wait that ended with `w`.
unfoldable pub waited : List ℕ → List Obs → Wait → Daemon → Daemon
waited ts os w s = record s { t0s = ts; obs = os; f = record (s.f) { deleted = w.deleted } }

-- `daemon_wait_cand`, then `daemon_fetch_cands` if an iterator was found.
unfoldable pub wait_fetch : Engine → Settings → List ℕ → Daemon → Option (ℕ × Daemon)
wait_fetch e c expected s = elim s.t0s [
  | [] ↦ none
  | t0 ∷ ts ↦ elim (wait_cand (params c expected t0 s) s.f.deleted s.obs) [
    | none ↦ none
    | some (w, os) ↦ some (fetch_found e c w.best (waited ts os w s))
  ]
]

-- `SKIP` for each batch that was taken in with a later one.
unfoldable pub reply_skips : ℕ → Daemon → Daemon
reply_skips zero s = s
reply_skips (suc k) s = reply_skips k (reply skip s)

-- The engine's own garbage collection, after every so many inputs.
unfoldable pub collect : Engine → Settings → Daemon → Daemon
collect e c s =
    let n = suc s.since_gc in
    if not e.has_gc || (leb_ℤ c.gc_every (pos 0) && leb_ℤ (pos 0) c.gc_every)
    then s
    else if leb_ℤ c.gc_every (pos n)
    then record (call e gc_sessions s) { since_gc = 0 }
    else record s { since_gc = n }

abbrev pub line_size : ℕ
line_size = 512

-- What the batch loop has: the keys gathered, how many batches came with them, and the input.
pub record Batch : Type 0 where
  pub keys : List ℕ
  pub skipped : ℕ
  pub input : In

-- `strncat(keys, next + 2, sizeof keys - strlen(keys) - 1)`.
unfoldable pub append_keys : List ℕ → List ℕ → List ℕ
append_keys keys next = keys ++ take (line_size - length keys - 1) (drop 2 (until_nul next))

-- The loop that takes in the batches that are already queued; each round adds a line or ends it.
-- `none` is a loop cut off by the fuel.
unfoldable pub coalesce : ℕ → Batch → Option Batch
coalesce zero b = none
coalesce (suc fuel) b =
    if not (ltb (length b.keys + 64) line_size)
    then some b
    else elim (cmd_next_is_batch (suc (feed_size b.input.feed)) b.input) [
      | none ↦ none
      | some (false, i) ↦ some (record b { input = i })
      | some (true, i) ↦ elim (cmd_read (suc (feed_size i.feed)) line_size false i) [
        | line next i' ↦
            coalesce fuel
              (record { keys = append_keys b.keys next; skipped = suc b.skipped; input = i' })
        | no_line i' ↦ some (record b { input = i' })
        | out_of_fuel ↦ none
      ]
    ]
