-- ===== src/Daemon/Replies.antt =====
-- The replies of `run_daemon` (harness/jinterop.c): one line for each command line that is read.
use wetype_ime_linux.Base.{
  ℕ, ◌≡◌, refl, sym, ap, subst, ◌∙◌, inl, inr, List, [], ◌∷◌, ◌++◌, Option, none, some, Bool, true,
  false, ltb, ◌==◌, if◌then◌else◌, Bool-cases, Option-cases, replicate, get_elem?, drop,
}
use mathlib.Core.List.{append-nil}
use wetype_ime_linux.Base.Int.{ℤ, pos, negsuc, pos_part}
use wetype_ime_linux.Command.{In}
use wetype_ime_linux.Fetch.{Choice, clear_choices}
use wetype_ime_linux.Daemon.{
  invoke, Reply, ok, skip, empty, err, cand, ok_num, Engine, Settings, Daemon, Batch,
  select_candidate, reply, call, send_keys, settle, reply_cands, wait_fetch, reply_skips, collect,
}
use wetype_ime_linux.Daemon.Kept.{
  none-some, some_inj, send_keys-Kept, collect-Kept, out-settle, out-wait_fetch, out-reply_skips,
  input-settle, input-wait_fetch, input-reply_skips,
}
use wetype_ime_linux.Daemon.Commands.{
  go_on, quit, find_symbol, argument_of, do_invoke, no_keys, do_keys, is_partial, do_choose, has_id,
  do_select, drop_current, renew, do_reset,
}

abbrev pub is_skip : Reply → Bool
is_skip skip = true
is_skip r = false

-- The daemon has written so many `SKIP` lines and then one line that is none, and the input is this.
pub record Answered (k : ℕ × In) (s s' : Daemon) : Type 0 where
  pub last : Reply
  pub is_last : is_skip last ≡ false
  pub out : s'.out ≡ s.out ++ replicate k.0 skip ++ last ∷ []
  pub input : s'.input ≡ k.1

pub next_inj : {s t : Daemon} → some (go_on s) ≡ some (go_on t) → s ≡ t
next_inj {s} h = ap (λ x. elim x [ go_on u ↦ u | quit u ↦ u ]) (some_inj h)

pub quit_go_on : {s t : Daemon} → quit s ≡ go_on t → ⊥
quit_go_on h = cc

pub answer_now :
    (r : Reply) (s t : Daemon)
    → is_skip r ≡ false
    → t.out ≡ s.out
    → t.input ≡ s.input
    → Answered (0, s.input) s (reply r t)
unfolding reply
answer_now r s t h e i = record {
  last = r;
  is_last = h;
  out = ap (λ o. o ++ r ∷ []) (e ∙ sym (append-nil s.out));
  input = i;
}

pub now :
    {s s' : Daemon} (r : Reply)
    → is_skip r ≡ false
    → some (go_on (reply r s)) ≡ some (go_on s')
    → Answered (0, s.input) s s'
now {s} r f h = subst (Answered (0, s.input) s) (next_inj h) (answer_now r s s f refl refl)

-- A way to write the one last reply after the skips.
answer_after :
    (k : ℕ) (r : Reply) (s t : Daemon)
    → is_skip r ≡ false
    → t.out ≡ s.out ++ replicate k skip
    → (u : Daemon) → u.out ≡ (reply r t).out
    → u.input ≡ s.input
    → Answered (k, s.input) s u
unfolding reply
answer_after k r s t h e u z i = record {
  last = r;
  is_last = h;
  out = z ∙ ap (λ o. o ++ r ∷ []) e;
  input = i;
}

reply_of : ℕ → Daemon → Reply
reply_of got s = if ltb 0 got then cand s.spans s.f.choices else empty

reply_cands_eq : (got : ℕ) (s : Daemon) → reply_cands got s ≡ reply (reply_of got s) s
unfolding reply_cands reply_of
reply_cands_eq got s = refl

reply_of_lem : (got : ℕ) (s : Daemon) → is_skip (reply_of got s) ≡ false
unfolding reply_of
reply_of_lem got s = elim (Bool-cases (ltb 0 got)) [ inl z ↦ rw z | inr z ↦ rw z ]

pub do_invoke-Answered :
    (e : Engine) (name : List ℕ) (s : Daemon) → Answered (0, s.input) s (do_invoke e name s)
unfolding do_invoke call
do_invoke-Answered e name s = elim (Option-cases (find_symbol e name)) [
  | inl z ↦ rw (do_invoke, z) (answer_now (ok_num (negsuc 0)) s s refl refl refl)
  | inr (x, z) ↦
      rw (do_invoke, z)
        (answer_now (ok_num (e.answer x (argument_of name s.sid))) s
          (call e (invoke x (argument_of name s.sid)) s) refl refl refl)
]

-- The number of batches taken in, and the input after them.
abbrev pub taken_of : In → Option Batch → ℕ × In
taken_of i none = (0, i)
taken_of i (some b) = (b.skipped, b.input)

pub do_keys-Answered :
    (e : Engine) (c : Settings) (single : Bool) (b : Batch) (s s' : Daemon)
    → do_keys e c single b s ≡ some s'
    → Answered (b.skipped, s.input) s s'
unfolding do_keys reply
do_keys-Answered e c single b s s' h = elim (Bool-cases (no_keys b s)) [
  | inl z ↦
      let q : do_keys e c single b s ≡ some (reply empty (reply_skips b.skipped s)) =
        rw (do_keys, z) in
      subst (Answered (b.skipped, s.input) s) (some_inj (sym q ∙ h)) (
        answer_after b.skipped empty s (reply_skips b.skipped s) refl (out-reply_skips b.skipped s)
          _ refl (input-reply_skips b.skipped s))
  | inr z ↦ elim (Option-cases (settle s)) [
    | inl n ↦
        let q : do_keys e c single b s ≡ none = rw (do_keys, z, n) in absurd (none-some (sym q ∙ h))
    | inr (s₁, y) ↦
        let s₂ = send_keys e single b.keys s₁ in
        elim (Option-cases (wait_fetch e c (if s₂.sent_known then s₂.sent else []) s₂)) [
          | inl n ↦
              let q : do_keys e c single b s ≡ none = rw (do_keys, z, y, n) in
              absurd (none-some (sym q ∙ h))
          | inr ((got, s₃), w) ↦
              let u = collect e c (reply_cands got (reply_skips b.skipped s₃)) in
              let q : do_keys e c single b s ≡ some u = rw (do_keys, z, y, w) in
              let same : s₃.out ≡ s.out =
                out-wait_fetch e c _ s₂ s₃ got w
                ∙ (send_keys-Kept e single b.keys s₁).out
                ∙ out-settle s s₁ y in
              let t = reply_skips b.skipped s₃ in
              subst (Answered (b.skipped, s.input) s) (some_inj (sym q ∙ h)) (
                answer_after b.skipped (reply_of got t) s t (reply_of_lem got t)
                  (out-reply_skips b.skipped s₃ ∙ ap (λ o. o ++ replicate b.skipped skip) same) u
                  ((collect-Kept e c (reply_cands got t)).out
                    ∙ ap (λ (d : Daemon). d.out) (reply_cands_eq got t))
                  ((collect-Kept e c (reply_cands got t)).input
                    ∙ ap (λ (d : Daemon). d.input) (reply_cands_eq got t)
                    ∙ input-reply_skips b.skipped s₃
                    ∙ input-wait_fetch e c _ s₂ s₃ got w
                    ∙ (send_keys-Kept e single b.keys s₁).input
                    ∙ input-settle s s₁ y))
        ]
  ]
]

pub do_choose-Answered :
    (e : Engine) (c : Settings) (x : Choice) (s s' : Daemon)
    → do_choose e c x s ≡ some s'
    → Answered (0, s.input) s s'
unfolding do_choose call
do_choose-Answered e c x s s' h = elim (Option-cases (settle s)) [
  | inl n ↦ let q : do_choose e c x s ≡ none = rw (do_choose, n) in absurd (none-some (sym q ∙ h))
  | inr (s₁, y) ↦
      let s₂ = call e (select_candidate x.text x.id) s₁ in
      let rest = drop (pos_part x.cover) s.sent in
      let s₃ = record s₂ { sent = rest } in
      elim (Bool-cases (is_partial s x.cover)) [
        | inr z ↦
            let u = record s₂ { sent = []; sent_known = false } in
            let q : do_choose e c x s ≡ some (reply ok u) = rw (do_choose, y, z) in
            subst (Answered (0, s.input) s) (some_inj (sym q ∙ h))
              (answer_now ok s u refl (out-settle s s₁ y) (input-settle s s₁ y))
        | inl z ↦ elim (Option-cases (wait_fetch e c rest s₃)) [
          | inl n ↦
              let q : do_choose e c x s ≡ none = rw (do_choose, y, z, n) in
              absurd (none-some (sym q ∙ h))
          | inr ((got, t), w) ↦
              let q : do_choose e c x s ≡ some (reply_cands got t) = rw (do_choose, y, z, w) in
              subst (Answered (0, s.input) s) (sym (reply_cands_eq got t) ∙ some_inj (sym q ∙ h)) (
                answer_now (reply_of got t) s t (reply_of_lem got t)
                  (out-wait_fetch e c rest s₃ t got w ∙ out-settle s s₁ y)
                  (input-wait_fetch e c rest s₃ t got w ∙ input-settle s s₁ y))
        ]
      ]
]

out-renew : (e : Engine) (s : Daemon) → (renew e s).out ≡ s.out
unfolding renew call drop_current clear_choices
out-renew e s = elim (Bool-cases (s.f.cur_it == 0)) [ inl z ↦ rw z | inr z ↦ rw z ]

input-renew : (e : Engine) (s : Daemon) → (renew e s).input ≡ s.input
unfolding renew call drop_current clear_choices
input-renew e s = elim (Bool-cases (s.f.cur_it == 0)) [ inl z ↦ rw z | inr z ↦ rw z ]

pub do_reset-Answered :
    (e : Engine) (s s' : Daemon) → do_reset e s ≡ some s' → Answered (0, s.input) s s'
unfolding do_reset
do_reset-Answered e s s' h = elim (Option-cases (settle s)) [
  | inl n ↦ let q : do_reset e s ≡ none = rw (do_reset, n) in absurd (none-some (sym q ∙ h))
  | inr (s₁, y) ↦
      let q : do_reset e s ≡ some (reply ok (renew e s₁)) = rw (do_reset, y) in
      subst (Answered (0, s.input) s) (some_inj (sym q ∙ h)) (
        answer_now ok s (renew e s₁) refl (out-renew e s₁ ∙ out-settle s s₁ y)
          (input-renew e s₁ ∙ input-settle s s₁ y))
]

pub do_select-Answered :
    (e : Engine) (c : Settings) (n : ℤ) (s s' : Daemon)
    → do_select e c n s ≡ some s'
    → Answered (0, s.input) s s'
unfolding do_select
do_select-Answered e c (negsuc n) s s' h =
    subst (Answered (0, s.input) s) (some_inj h) (answer_now err s s refl refl refl)
do_select-Answered e c (pos n) s s' h = elim (Option-cases (get_elem? s.f.choices n)) [
  | inl z ↦
      let q : do_select e c (pos n) s ≡ some (reply err s) = rw (do_select, z) in
      subst (Answered (0, s.input) s) (some_inj (sym q ∙ h)) (answer_now err s s refl refl refl)
  | inr (x, y) ↦ elim (Bool-cases (has_id x)) [
    | inr z ↦
        let q : do_select e c (pos n) s ≡ some (reply err s) = rw (do_select, y, z) in
        subst (Answered (0, s.input) s) (some_inj (sym q ∙ h)) (answer_now err s s refl refl refl)
    | inl z ↦
        let q : do_select e c (pos n) s ≡ do_choose e c x s = rw (do_select, y, z) in
        do_choose-Answered e c x s s' (sym q ∙ h)
  ]
]
