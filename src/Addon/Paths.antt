-- ===== src/Addon/Paths.antt =====
-- Where the addon finds its files: `resolveDirs` and `prepareHarnessLog` of
-- fcitx5-wetype/src/wetype.cpp, and fcitx5-wetype/src/harness_log.h.
-- The environment and the file system are what a `Host` answers. The log of the calls that change
-- the file system is a list, newest last.
use wetype_ime_linux.Base.{
  ℕ, ◌*◌, List, [], ◌∷◌, ◌++◌, Option, none, some, Bool, not, ◌&&◌, ◌==◌, leb, if◌then◌else◌, codes,
}
use wetype_ime_linux.Addon.Punctuation.{is_nil}

-- `getenv`, `access` with `X_OK` and `R_OK`, the size that `stat` gives, and the kind of host.
pub record Host : Type 0 where
  pub getenv : List ℕ → Option (List ℕ)
  pub can_run : List ℕ → Bool
  pub can_read : List ℕ → Bool
  pub size_of : List ℕ → Option ℕ
  pub aarch64 : Bool

pub data FileCall : Type 0 where
  mkdir : List ℕ → FileCall
  rename : List ℕ → List ℕ → FileCall

-- `HARNESS_LOG_MAX_BYTES`.
abbrev pub log_max_bytes : ℕ
log_max_bytes = 16 * 1024 * 1024

-- The calls of the loop of `mkdirParents`: `done` is what stands before the rest of the path.
unfoldable pub mkdir_each : List ℕ → List ℕ → List FileCall
mkdir_each before [] = []
mkdir_each before (c ∷ cs) =
    let rest = mkdir_each (before ++ c ∷ []) cs in
    if not (is_nil before) && (c == b'/') then mkdir before ∷ rest else rest

-- `mkdirParents`.
unfoldable pub mkdir_parents : List ℕ → List FileCall
mkdir_parents path = mkdir_each [] path ++ mkdir path ∷ []

-- `s && *s`.
abbrev pub given : Option (List ℕ) → Option (List ℕ)
given none = none
given (some []) = none
given (some (c ∷ cs)) = some (c ∷ cs)

abbrev pub or_else {ℓ} : {A : Type ℓ} → Option A → A → A
or_else none d = d
or_else (some x) d = x

-- `harnessLogPath`.
unfoldable pub harness_log_path : Option (List ℕ) → Option (List ℕ) → Option (List ℕ) → List ℕ
harness_log_path override_path state_home home = elim (given override_path) [
  | some p ↦ p
  | none ↦
      let under_home = or_else (given home) (codes "/tmp") ++ codes "/.local/state" in
      or_else (given state_home) under_home ++ codes "/wetype-ime" ++ codes "/harness.log"
]

-- `capHarnessLog`: the call made, if any.
unfoldable pub cap_harness_log : Host → List ℕ → ℕ → List FileCall
cap_harness_log h path max_bytes = elim (h.size_of path) [
  | none ↦ []
  | some n ↦ if leb n max_bytes then [] else rename path (path ++ codes ".1") ∷ []
]

-- `path.rfind('/')`: what stands before the last slash.
unfoldable pub parent_of : List ℕ → Option (List ℕ)
parent_of [] = none
parent_of (c ∷ cs) = elim (parent_of cs) [
  | some p ↦ some (c ∷ p)
  | none ↦ if c == b'/' then some [] else none
]

-- `prepareHarnessLog`: the path and the calls made.
unfoldable pub prepare_harness_log : Host → List ℕ × List FileCall
prepare_harness_log h =
    let path =
      harness_log_path (h.getenv (codes "WETYPE_HARNESS_LOG")) (h.getenv (codes "XDG_STATE_HOME"))
        (h.getenv (codes "HOME")) in
    let made : List FileCall = elim (parent_of path) [ none ↦ [] | some p ↦ mkdir_parents p ] in
    (path, made ++ cap_harness_log h path log_max_bytes)

pub record Dirs : Type 0 where
  pub eng : List ℕ
  pub dicts : List ℕ
  pub work : List ℕ
  pub qemu : List ℕ
  pub sysroot : List ℕ

-- `existsEngine`.
unfoldable pub exists_engine : Host → List ℕ → Bool
exists_engine h p =
    h.can_run (p ++ codes "/wetype-harness") && h.can_read (p ++ codes "/lib/libwxhld_jni.so")

unfoldable pub home_of : Host → List ℕ
home_of h = or_else (h.getenv (codes "HOME")) (codes "/root")

-- The first of the places that has an engine; the last is taken unseen.
unfoldable pub engine_dir : Host → List ℕ
engine_dir h =
    let wanted = or_else (h.getenv (codes "WETYPE_ENGINE_DIR")) [] in
    let local = home_of h ++ codes "/.local/lib/wetype-ime/arm64" in
    let system = codes "/usr/lib/wetype-ime/arm64" in
    if not (is_nil wanted) && exists_engine h wanted
    then wanted
    else if exists_engine h local
    then local
    else if exists_engine h system
    then system
    else home_of h ++ codes "/wetype-ime/squashfs-root/usr/lib/wetype-ime/arm64"

-- An empty result runs the harness directly.
unfoldable pub qemu_of : Host → List ℕ → List ℕ
qemu_of h eng =
    let wanted = or_else (h.getenv (codes "QEMU_AARCH64")) [] in
    let bundled = eng ++ codes "/qemu-aarch64-static" in
    if not (is_nil wanted)
    then wanted
    else if h.can_run bundled
    then bundled
    else if h.aarch64
    then []
    else codes "qemu-aarch64-static"

-- `resolveDirs`.
unfoldable pub resolve_dirs : Host → Dirs
resolve_dirs h =
    let eng = engine_dir h in
    let base =
      or_else (given (h.getenv (codes "XDG_DATA_HOME"))) (home_of h ++ codes "/.local/share") in
    record {
      eng = eng;
      dicts = or_else (h.getenv (codes "WETYPE_DICT_DIR")) (eng ++ codes "/dicts");
      work = or_else (h.getenv (codes "WETYPE_WORK_DIR")) (base ++ codes "/wetype-ime/dict");
      qemu = qemu_of h eng;
      sysroot = or_else (given (h.getenv (codes "WETYPE_SYSROOT"))) (eng ++ codes "/sysroot");
    }

-- The program and the arguments of `execl` and `execlp` in `EngineProc::start`, after the path.
unfoldable pub exec_args : Dirs → List (List ℕ)
exec_args d =
    let run =
      (d.eng ++ codes "/wetype-harness")
      ∷ (d.eng ++ codes "/lib/libwxhld_jni.so")
      ∷ codes "--daemon"
      ∷ [] in
    if is_nil d.qemu then run else d.qemu ∷ codes "-L" ∷ d.sysroot ∷ run

-- What the child sets in its environment; `QEMU_CPU` only where it is not set.
unfoldable pub child_env : Host → Dirs → List (List ℕ × List ℕ)
child_env h d =
    let direct = is_nil d.qemu in
    let libs = d.eng ++ codes "/lib" in
    let native = libs ++ codes ":" ++ d.sysroot ++ codes "/system/lib64" in
    let cpu : List (List ℕ × List ℕ) = elim (h.getenv (codes "QEMU_CPU")) [
      | none ↦ (codes "QEMU_CPU", codes "cortex-a72") ∷ []
      | some v ↦ []
    ] in
    (codes "LD_LIBRARY_PATH", if direct then native else libs)
    ∷ (codes "WETYPE_DICT_DIR", d.dicts)
    ∷ (codes "WETYPE_ASSET_DIR", d.dicts)
    ∷ (codes "WETYPE_WORK_DIR", d.work)
    ∷ (if direct then [] else cpu)
