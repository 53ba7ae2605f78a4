-- ===== src/Addon/Composing.antt =====
-- What the addon does with the text being composed (`commitText`, `commitCandidate`, `clearAll`, the
-- wait for candidates that Space begins, `reset` and `deactivate` in
-- fcitx5-wetype/src/wetype.cpp).
use wetype_ime_linux.Base.{
  ℕ, zero, suc, List, [], ◌∷◌, ◌++◌, none, some, Bool, true, false, not, ◌&&◌, ◌||◌, leb,
  if◌then◌else◌, codes, length, drop, get_elem?,
}
use wetype_ime_linux.Base.Int.{ℤ, pos, leb_ℤ, pos_part}
use wetype_ime_linux.Addon.Punctuation.{is_nil}
use wetype_ime_linux.Addon.State.{
  Front, QueuedKey, commit, forward, no_handler, cand_handler, Addon, next, pending_raw, update_ui,
  set_punct, after_digit_is, remember_trailing,
}
use wetype_ime_linux.Addon.Sending.{request_of, post}
use wetype_ime_linux.Daemon.Commands.{decimal}

-- `std::to_string` of an index.
unfoldable pub index_text : ℕ → List ℕ
index_text n = decimal (suc n) n

unfoldable pub commit_string : ℕ → List ℕ → Addon → Addon
commit_string ic text s = record s { out = s.out ++ commit ic text ∷ [] }

-- The candidates go, with the page and their being current.
unfoldable pub drop_cands : Addon → Addon
drop_cands s = record s { cands = []; covers = []; current = false; window_start = 0; selected = 0 }

-- `commitText` up to its `send`.
unfoldable pub committed : Front → ℕ → List ℕ → Addon → Addon
committed x ic text s =
    let s₁ = commit_string ic text (remember_trailing x ic text s) in
    record (drop_cands s₁) { revision = next s.revision; buf = []; recovery_tried = false }

-- `commitText`.
unfoldable pub commit_text : Front → ℕ → List ℕ → Addon → Addon
commit_text x ic text s = update_ui x ic (post x (codes "C") no_handler (committed x ic text s))

-- `covers_[index]`, or 0 past the end.
abbrev pub cover_at : ℕ → List ℤ → ℤ
cover_at i [] = pos 0
cover_at zero (c ∷ cs) = c
cover_at (suc i) (c ∷ cs) = cover_at i cs

-- Whether a candidate of this cover takes the whole buffer.
abbrev pub takes_all : ℤ → List ℕ → Bool
takes_all c buf = leb_ℤ c (pos 0) || leb (length buf) (pos_part c)

unfoldable pub select_line : ℕ → List ℕ
select_line i = codes "S " ++ index_text i

-- The commit of a candidate that covers only the first letters, up to its `send`.
unfoldable pub partly_committed : Front → ℕ → List ℕ → ℕ → Addon → Addon
partly_committed x ic text cover s =
    let s₁ = commit_string ic text (remember_trailing x ic text s) in
    record (drop_cands s₁) { revision = next s.revision; buf = drop cover s.buf }

-- A commit of the candidate `text`, which is at `i`.
unfoldable pub take_candidate : Front → ℕ → ℕ → List ℕ → Addon → Addon
take_candidate x ic i text s =
    let cover = cover_at i s.covers in
    let s₁ = partly_committed x ic text (pos_part cover) s in
    if takes_all cover s.buf
    then commit_text x ic text (post x (select_line i) no_handler s)
    else update_ui x ic (post x (select_line i) (cand_handler (request_of s₁)) s₁)

-- `commitCandidate`; an index below 0 is no number here.
unfoldable pub commit_candidate : Front → ℕ → ℕ → Addon → Addon
commit_candidate x ic i s =
    if not s.current
    then s
    else elim (get_elem? s.cands i) [ none ↦ s | some text ↦ take_candidate x ic i text s ]

-- `cancelPending`, with `disarmPending`.
unfoldable pub disarm_pending : Addon → Addon
disarm_pending s = record s { pending = false; timer = none }

unfoldable pub cancel_pending : Addon → Addon
cancel_pending s = record (disarm_pending s) { queued = [] }

-- `clearAll` up to its `send`.
unfoldable pub cleared : Addon → Addon
cleared s = record (drop_cands (cancel_pending s)) {
  epoch = next s.epoch;
  revision = next s.revision;
  buf = [];
  recovery_tried = false;
}

-- `clearAll` without a context, and with one.
unfoldable pub clear_all : Front → Addon → Addon
clear_all x s = post x (codes "C") no_handler (cleared s)

unfoldable pub clear_shown : Front → ℕ → Addon → Addon
clear_shown x ic s = update_ui x ic (clear_all x s)

-- The releases among the deferred keys are passed on.
unfoldable pub forward_releases : ℕ → List QueuedKey → Addon → Addon
forward_releases ic [] s = s
forward_releases ic (k ∷ ks) s =
    let s₁ = record s { out = s.out ++ forward ic k.raw true k.time ∷ [] } in
    forward_releases ic ks (if k.release then s₁ else s)

-- `fallbackPending`.
unfoldable pub fallback_pending : Front → ℕ → Addon → Addon
fallback_pending x ic s =
    forward_releases ic s.queued (commit_text x ic (pending_raw x s) (cancel_pending s))

-- `armPending`.
unfoldable pub arm_pending : Front → ℕ → Addon → Addon
arm_pending x ic s =
    let s₁ = update_ui x ic (record s { pending = true; timer = some (ic, s.epoch) }) in
    if (s₁.current && is_nil s₁.cands) || s₁.proc.gave_up then fallback_pending x ic s₁ else s₁

-- Whether there is something to show no longer.
abbrev pub had_text : Addon → Bool
had_text s = not (is_nil s.buf) || not (is_nil s.cands)

-- `reset`.
unfoldable pub reset : Front → ℕ → Addon → Addon
reset x ic s =
    let s₁ = clear_all x (post x (codes "SAVE") no_handler s) in
    if had_text s then update_ui x ic s₁ else s₁

-- What `deactivate` keeps of the text when another input method is chosen.
unfoldable pub keep_raw : Front → ℕ → Addon → Addon
keep_raw x ic s =
    if is_nil s.buf
    then set_punct ic (after_digit_is false) s
    else commit_string ic (pending_raw x s) (remember_trailing x ic (pending_raw x s) s)

-- `deactivate`.
unfoldable pub deactivate : Front → Bool → ℕ → Addon → Addon
deactivate x switching ic s =
    let s₁ = clear_all x (if switching then keep_raw x ic s else s) in
    if had_text s then update_ui x ic s₁ else s₁
