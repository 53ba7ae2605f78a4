-- ===== src/Daemon/Ends.antt =====
-- Every command of `run_daemon` (harness/jinterop.c) ends, once the engine is quiet for long enough.
use wetype_ime_linux.Base.{
  ℕ, ◌+◌, ◌≤◌, ◌≡◌, ◌≢◌, refl, sym, ap, ◌∙◌, inl, inr, List, [], ◌∷◌, ◌++◌, Option, none, some,
  Bool, true, false, not, ◌&&◌, if◌then◌else◌, Bool-cases, Option-cases, drop, length, get_elem?,
  str_eqb, str_eqb→eq, codes, arith,
}
use wetype_ime_linux.Base.Int.{ℤ, pos, negsuc, pos_part}
use wetype_ime_linux.Wait.{Obs, is_empty, wait_cand, wait_loop, initial}
use wetype_ime_linux.Wait.Outcome.{wait_loop_ends}
use wetype_ime_linux.Command.{In, in_size}
use wetype_ime_linux.Command.Count.{lines_of}
use wetype_ime_linux.Fetch.{Choice, until_nul}
use wetype_ime_linux.Daemon.{
  Engine, Settings, Daemon, Batch, ok, err, empty, select_candidate, reply, call, send_keys,
  settled, settle, params, fetch_found, waited, wait_fetch, reply_skips, reply_cands, collect,
  can_reset,
}
use wetype_ime_linux.Daemon.Kept.{none-some, send_keys-Kept}
use wetype_ime_linux.Daemon.Commands.{
  Next, go_on, quit, strip, after_letter, first_is, no_keys, do_keys, do_input, is_partial, has_id,
  do_choose, do_select, renew, do_reset, handle_input, handle,
}
use wetype_ime_linux.Daemon.Batches.{gather-Gathered, gather_lines}
use wetype_ime_linux.Daemon.Replies.{Answered}
use wetype_ime_linux.Daemon.Answers.{taken_in, handle-Answered}
use wetype_ime_linux.Daemon.Returned.{handle-quit}

-- The schedule has the state that a command finds, and a clock for its wait, in which some later
-- round is quiet and 2500 ms after that clock. The reader's buffer is within its size.
pub record IsPatient (s : Daemon) : Type 0 where
  pub t0 : ℕ
  pub ts : List ℕ
  pub clock : s.t0s ≡ t0 ∷ ts
  pub first : Obs
  pub before : List Obs
  pub late : Obs
  pub after : List Obs
  pub split : s.obs ≡ first ∷ (before ++ late ∷ after)
  pub quiet : late.queue ≡ []
  pub over : t0 + 2500 ≤ late.now
  pub fits : length s.input.buf ≤ in_size

abbrev Ends {ℓ} : {A : Type ℓ} → Option A → Type ℓ
Ends {A = A} o = (a : A) × (o ≡ some a)

goes_on : {s : Daemon} → some (go_on s) ≢ none
goes_on h = none-some (sym h)

settle_ends :
    (s : Daemon) (o : Obs) (os : List Obs) → s.obs ≡ o ∷ os → settle s ≡ some (settled o os s)
unfolding settle settled
settle_ends s o os h = rw (settle, h) refl

wait_fetch-Ends :
    (e : Engine) (c : Settings) (x : List ℕ) (s : Daemon) (t0 : ℕ) (ts : List ℕ)
    (before after : List Obs) (late : Obs)
    → s.t0s ≡ t0 ∷ ts
    → s.obs ≡ before ++ late ∷ after
    → late.queue ≡ []
    → t0 + 2500 ≤ late.now
    → Ends (wait_fetch e c x s)
unfolding wait_cand params wait_fetch fetch_found waited
wait_fetch-Ends e c x s t0 ts before after late k o q h =
    let (r, z) = wait_loop_ends (params c x t0 s) before after late (initial s.f.deleted) q h in
    let y : wait_cand (params c x t0 s) s.f.deleted s.obs ≡ some r =
      ap (λ l. wait_loop (params c x t0 s) l (initial s.f.deleted)) o ∙ z in
    (fetch_found e c r.0.best (waited ts r.1 r.0 s), rw (wait_fetch, k, y) refl)

module _ (e : Engine) (c : Settings) (s : Daemon) (v : IsPatient s) where
  do_reset-Ends : Ends (do_reset e s)
  unfolding do_reset reply
  do_reset-Ends =
      let z = settle_ends s v.first (v.before ++ v.late ∷ v.after) v.split in
      (reply ok (renew e (settled v.first (v.before ++ v.late ∷ v.after) s)), rw (do_reset, z) refl)

  do_choose-Ends : (x : Choice) → Ends (do_choose e c x s)
  unfolding settled call do_choose reply
  do_choose-Ends x =
      let os = v.before ++ v.late ∷ v.after in
      let z = settle_ends s v.first os v.split in
      let s₂ = call e (select_candidate x.text x.id) (settled v.first os s) in
      let rest = drop (pos_part x.cover) s.sent in
      elim (Bool-cases (not (is_partial s x.cover))) [
        | inl y ↦
            (reply ok (record s₂ { sent = []; sent_known = false }), rw (do_choose, z, y) refl)
        | inr y ↦
            let (r, w) =
              wait_fetch-Ends e c rest (record s₂ { sent = rest }) v.t0 v.ts v.before v.after v.late
                v.clock refl v.quiet v.over in
            (reply_cands r.0 r.1, rw (do_choose, z, y, w) refl)
      ]

  do_select-Ends : (n : ℤ) → Ends (do_select e c n s)
  unfolding do_select
  do_select-Ends (negsuc n) = (reply err s, refl)
  do_select-Ends (pos n) = elim (Option-cases (get_elem? s.f.choices n)) [
    | inl z ↦ (reply err s, rw (do_select, z) refl)
    | inr (x, z) ↦ elim (Bool-cases (has_id x)) [
      | inl y ↦ let (t, w) = do_choose-Ends x in (t, rw (do_select, z, y) w)
      | inr y ↦ (reply err s, rw (do_select, z, y) refl)
    ]
  ]

  do_keys-Ends :
      (single : Bool) (b : Batch) (s₀ : Daemon)
      → s₀.obs ≡ s.obs
      → s₀.t0s ≡ s.t0s
      → Ends (do_keys e c single b s₀)
  unfolding do_keys settled
  do_keys-Ends single b s₀ o k = elim (Bool-cases (no_keys b s₀)) [
    | inl y ↦ (reply empty (reply_skips b.skipped s₀), rw (do_keys, y) refl)
    | inr y ↦
        let os = v.before ++ v.late ∷ v.after in
        let s₁ = settled v.first os s₀ in
        let z = settle_ends s₀ v.first os (o ∙ v.split) in
        let s₂ = send_keys e single b.keys s₁ in
        let kept = send_keys-Kept e single b.keys s₁ in
        let (r, w) =
          wait_fetch-Ends e c (if s₂.sent_known then s₂.sent else []) s₂ v.t0 v.ts v.before v.after
            v.late (kept.t0s ∙ k ∙ v.clock) kept.obs v.quiet v.over in
        (collect e c (reply_cands r.0 (reply_skips b.skipped r.1)), rw (do_keys, y, z, w) refl)
  ]

  do_input-Ends : (single : Bool) (keys : List ℕ) → Ends (do_input e c single keys s)
  unfolding do_input
  do_input-Ends single keys =
      let g = gather-Gathered single keys s.input v.fits in
      let (t, w) = do_keys-Ends single g.batch (record s { input = g.batch.input }) refl refl in
      (t, rw (do_input, g.ends) w)

  handle_input_ends : (l : List ℕ) → handle_input e c l s ≢ none
  unfolding handle_input
  handle_input_ends l = elim (Option-cases (after_letter b'L' l)) [
    | inr (keys, y) ↦ let (t, w) = do_input-Ends true keys in rw (handle_input, y, w) goes_on
    | inl y ↦ elim (Option-cases (after_letter b'B' l)) [
      | inr (keys, z) ↦ let (t, w) = do_input-Ends false keys in rw (handle_input, y, z, w) goes_on
      | inl z ↦ elim (Bool-cases (first_is b'S' l)) [
        | inl u ↦
            let (t, w) = do_select-Ends (c.atoi (drop 1 l)) in rw (handle_input, y, z, u, w) goes_on
        | inr u ↦ elim (Bool-cases (str_eqb l (codes "C") && can_reset e)) [
          | inl x ↦ let (t, w) = do_reset-Ends in rw (handle_input, y, z, u, x, w) goes_on
          | inr x ↦ rw (handle_input, y, z, u, x) goes_on
        ]
      ]
    ]
  ]

  handle_ends : (raw : List ℕ) → handle e c raw s ≢ none
  unfolding handle
  handle_ends raw = ground (arith, handle_input_ends (strip (until_nul raw)))

  -- Only `Q` ends the loop.
  handle-Q :
      (raw : List ℕ) (t : Daemon)
      → handle e c raw s ≡ some (quit t)
      → str_eqb (strip (until_nul raw)) (codes "Q") ≡ true
  unfolding handle handle_input
  handle-Q raw t h = ground (arith, h)

-- What a command leads to: an answer, or the end of the loop. `k` lines are taken from the input.
abbrev pub Leads : List ℕ → Daemon → Next → Type 0
Leads l s (go_on s') =
    (k : ℕ) × (lines_of s.input ≡ k + lines_of s'.input) × Answered (k, s'.input) s s'
Leads l s (quit s') = (l ≡ codes "Q") × (s ≡ s')

-- The lines that a command takes from the input are those counted as taken in.
taken_in_lines :
    (l : List ℕ) (i : In)
    → length i.buf ≤ in_size
    → lines_of i ≡ (taken_in l i).0 + lines_of (taken_in l i).1
taken_in_lines l i h = elim (Option-cases (after_letter b'B' l)) [
  | inl z ↦ rw (taken_in, z) (omega arith)
  | inr (keys, z) ↦
      let g = gather-Gathered false keys i h in
      rw (taken_in, z, g.ends) (gather_lines false keys i g.batch g.ends)
]

-- Every command that is not empty ends, once the engine has been quiet up to 2500 ms after the clock
-- of its wait: `Q` ends the loop and changes nothing, and any other is answered by one line that is
-- no `SKIP`, after one `SKIP` for each whole line that it took from the input: as many as the input
-- has fewer afterwards.
pub handle_answers :
    (e : Engine) (c : Settings) (raw : List ℕ) (s : Daemon)
    → IsPatient s
    → is_empty (strip (until_nul raw)) ≡ false
    → (n : Next) × (handle e c raw s ≡ some n) × Leads (strip (until_nul raw)) s n
handle_answers e c raw s v ne =
    let l = strip (until_nul raw) in
    elim (Option-cases (handle e c raw s)) [
      | inl z ↦ absurd (handle_ends e c s v raw z)
      | inr (go_on s', z) ↦
          let a = handle-Answered e c raw s s' ne z in
          let lines = taken_in_lines l s.input v.fits in
          let kept = ap lines_of a.input in
          (
            go_on s',
            z,
            (
              (taken_in l s.input).0,
              omega (arith, lines, kept),
              record { last = a.last; is_last = a.is_last; out = a.out; input = refl },
            ),
          )
      | inr (quit s', z) ↦
          (quit s', z, (str_eqb→eq _ _ (handle-Q e c s v raw s' z), handle-quit e c raw s s' z))
    ]
