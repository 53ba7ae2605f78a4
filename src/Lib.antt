-- ===== src/Lib.antt =====
-- A verification library for the WeType input-method harness.
--
-- The program runs an Android input-method engine on Linux. harness/jinterop.c loads the engine's
-- shared library, hands it a fake JNI environment, and in its daemon mode answers a line protocol
-- on standard input and output: the front end sends letters, selections and resets, and the harness
-- replies with candidates. The engine's own code is not in the repository; where the harness
-- calls it, the model takes what it answers as an argument or an observation.
--
-- The parts, with the functions of harness/jinterop.c that they model:
--   Base      lists, Boolean tests, signed integers and permutations over the native numbers
--   Memory    the C heap: `malloc`, `free`, the cells of `JObj`, `JArr`, `JBytes` and raw blocks
--   Registry  `reg_add`, `reg_find_locked`, `reg_pin`, `reg_free_obj`, `reg_release`, `reg_sweep`
--   Objects   `obj_new`, `obj_setf`, `obj_get`, `str_obj`, `cand_text`, `is_jobj`, and the
--             accessors of one object
--   Jni       `F_FindClass`, `token_cache`, `F_GetFieldID`
--   Access    the functions of the environment that make or hand over objects, strings and arrays
--   Tables    `build_env`, `build_vm`
--   Shim      shim/libandroid.c, the stand-in for libandroid
--   Start     `main` up to the session, and dict_table.h
--   Events    `pending_input_field`, `F_SetLongField` at `newIterator`, `probe_listener`
--   Wait      `daemon_wait_cand`, `daemon_free_it`, `daemon_drop_events`
--   Command   `cmd_fill`, `cmd_read`, `cmd_next_is_batch`
--   Fetch     `daemon_fetch_cands`, `cid_copies_clear`
--   Daemon    `run_daemon`, `daemon_key`, `daemon_reply_cands`
-- and with the C++ front end for Fcitx, fcitx5-wetype/src/, that writes the commands:
--   Addon/Punctuation  punctuation.h
--   Addon/Segment      `segmentPinyin`, `pinyinPreedit` (wetype.cpp)
--   Addon/Glossary     glossary.h
--   Addon/Paths        harness_log.h, `resolveDirs`, `prepareHarnessLog`
--   Addon/Proc         `EngineProc`: the process, its queue of handlers
--   Addon/State        the members of `WeTypeEngine`, the page, the panel, the quote pairs
--   Addon/Sending      `send`, `die`, `ensureEngine`, `requestCandidates`, the lost reply
--   Addon/Composing    `commitText`, `commitCandidate`, `armPending`, `reset`, `deactivate`
--   Addon/Keys         `processKey`
--   Addon/Answering    `candidateHandler`, `drainQueued`, `onReadable`, the timers
--   Addon/Machine      the events of the addon as one step function
--   Protocol  harness/jinterop.c and fcitx5-wetype/src/wetype.cpp: the candidate line, and how the
--             addon cuts it off what it reads
--   Trace     harness/malloc_trace.c, the allocation tracer
--   Heapscan  scripts/mtrace2_heapscan.c, the heap scanner
--   Checks, Runs, Sessions, Blocks, Calls, Scans   runs on concrete inputs
--
-- A pointer is a number and 0 is NULL; `malloc` never gives an address twice, so a use after free
-- shows as an empty cell. The readers of an object (`obj_get`, `is_jobj` and their like) give 0 or
-- nothing at such an address, where the code would read freed memory; the addresses that the engine
-- hands over are taken to be allocated. A machine integer is a number: the counters, sizes and times of the
-- program stay far below the widths of their types in any run that the memory allows. A call that
-- holds a mutex is one step. The clock, the system's memory and the descriptor's bytes are
-- arguments. The loops of the command reader and of the batches run on fuel, which the size of the
-- input bounds; the loop of the daemon runs on a number of commands, and what the engine delivers
-- is a schedule of observations that the waits take in order.
-- The addon is a state that each function maps to the next; what Fcitx answers is a record of
-- functions, and the outcomes of fork and write are a list that the calls take in order. A failed
-- write calls handlers, which may write again: `send` runs on fuel, and two levels are enough.
-- A keysym is a data type, and what Fcitx converts it to is a parameter.
--
-- What `qsort`, `strtoul` and the words of memory give is a parameter, and so is the structure of
-- jni.h, which is another project's.
--
-- Not modelled: log lines, the calls of the engine library and the one-shot probes of `main`, the
-- counters in the dump of the allocation tracer, the probe of the heap scanner,
-- and of the front end the registration with Fcitx and a click on a candidate.
pub mod Base
pub mod Memory
pub mod Registry
pub mod Objects
pub mod Jni
pub mod Access
pub mod Tables
pub mod Start
pub mod Events
pub mod Wait
pub mod Command
pub mod Fetch
pub mod Daemon
pub mod Addon
pub mod Trace
pub mod Protocol
pub mod Heapscan
pub mod Shim
pub mod Checks
pub mod Runs
pub mod Sessions
pub mod Blocks
pub mod Calls
pub mod Scans
