-- ===== src/Addon/Proc.antt =====
-- The engine process as the addon drives it (`EngineProc` of fcitx5-wetype/src/wetype.cpp).
-- The handlers are a parameter: a handler to call is a result of the step, with the line it is given,
-- and the one who runs the step calls it. What a system call gives is an argument. Log lines are
-- left out; `wire` is what has been written to the process's input.
use wetype_ime_linux.Base.{
  ℕ, zero, suc, List, [], ◌∷◌, ◌++◌, Bool, true, false, not, ◌&&◌, leb, if◌then◌else◌, codes,
  str_eqb,
}
use wetype_ime_linux.Addon.Punctuation.{is_nil}

-- `State`.
pub data Stage : Type 0 where
  dead starting serving : Stage

pub record Proc (H : Type 0) : Type 0 where
  -- `pid_ > 0`, `in_ >= 0`, `out_ >= 0`
  pub alive : Bool
  pub in_open : Bool
  pub out_open : Bool
  pub rbuf : List ℕ
  pub stage : Stage
  pub pending : List H
  -- `ioSource_` and `timeSource_`
  pub watching : Bool
  pub watchdog : Bool
  pub fail_count : ℕ
  pub gave_up : Bool
  pub wire : List (List ℕ)

abbrev pub max_failures : ℕ
max_failures = 5

module _ {H : Type 0} where
  unfoldable pub new_proc : Proc H
  new_proc = record {
    alive = false;
    in_open = false;
    out_open = false;
    rbuf = [];
    stage = dead;
    pending = [];
    watching = false;
    watchdog = false;
    fail_count = 0;
    gave_up = false;
    wire = [];
  }

  -- The parent after a successful `fork`.
  unfoldable pub launched : Proc H → Proc H
  launched p = record p {
    alive = true;
    in_open = true;
    out_open = true;
    rbuf = [];
    stage = starting;
    watching = true;
    watchdog = true;
    fail_count = suc p.fail_count;
    wire = [];
  }

  -- `start`; the argument says whether both pipes and the process could be made.
  unfoldable pub start : Bool → Proc H → Bool × Proc H
  start made p =
      if p.alive
      then (true, p)
      else if leb max_failures p.fail_count
      then (false, record p { gave_up = true })
      else if made
      then (true, launched p)
      else (false, p)

  -- `stop` but for the wait: the handlers are those that `failPendingHandlers` calls with "".
  unfoldable pub stop : Proc H → Proc H × List H
  stop p = (
    record p {
      alive = false;
      in_open = false;
      out_open = false;
      watching = false;
      watchdog = false;
      stage = dead;
      pending = [];
      wire = if p.alive && p.in_open then p.wire ++ codes "Q" ∷ [] else p.wire;
    },
    p.pending,
  )

  -- `send`, with whether `write` succeeds: the handlers to call with "", in order.
  unfoldable pub send_line : Bool → List ℕ → H → Proc H → Proc H × List H
  send_line written l h p =
      if not (p.alive && p.in_open)
      then (p, h ∷ [])
      else if written
      then (record p { pending = p.pending ++ h ∷ []; wire = p.wire ++ l ∷ [] }, [])
      else (let (p', hs) = stop p in (p', hs ++ h ∷ []))

  -- `onLine`: the handler to call with the line, if any.
  unfoldable pub on_line : List ℕ → Proc H → Proc H × List H
  on_line l p = elim p.stage [
    | dead ↦ (p, [])
    | starting ↦
        if str_eqb l (codes "READY")
        then (record p { stage = serving; fail_count = 0; watchdog = false }, [])
        else (p, [])
    | serving ↦
        if is_nil l
        then (p, [])
        else elim p.pending [ [] ↦ (p, []) | h ∷ hs ↦ (record p { pending = hs }, h ∷ []) ]
  ]

-- What `waitpid` gives: the process, no such child, nothing yet, an interrupt, another error.
pub data WaitStatus : Type 0 where
  reaped gone running interrupted failed : WaitStatus

-- The rounds of the wait of `stop`: whether it exited by itself, and the sleeps of 10 ms.
unfoldable pub wait_exit : ℕ → List WaitStatus → Bool × ℕ
wait_exit zero ws = (false, 0)
wait_exit (suc n) [] = (false, 0)
wait_exit (suc n) (w ∷ ws) =
    let (done, naps) = wait_exit n ws in
    elim w [
      | reaped ↦ (true, 0)
      | gone ↦ (true, 0)
      | running ↦ (done, suc naps)
      | interrupted ↦ (done, suc naps)
      | failed ↦ (false, 0)
    ]
