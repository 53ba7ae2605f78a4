-- ===== src/Daemon/Iterators.antt =====
-- `run_daemon` of harness/jinterop.c gives every iterator that the engine delivers back to it once:
-- at any time those received are the ones deleted and the one in use.
use wetype_ime_linux.Base.{
  ℕ, ◌≡◌, ◌≢◌, refl, sym, ap, ap₂, subst, ◌∙◌, ◌⊎◌, inl, inr, List, [], ◌∷◌, ◌++◌, Option, none,
  some, Bool, false, ◌==◌, if◌then◌else◌, Bool-cases, Option-cases, ==_of_ne, drop, arith,
}
use mathlib.Core.List.{Perm, perm_append_comm, append_assoc, append-nil}
use mathlib.Core.List.Perm
use wetype_ime_linux.Base.Int.{ℤ, pos_part}
use wetype_ime_linux.Registry.{Reg}
use wetype_ime_linux.Wait.{Obs, free_it}
use wetype_ime_linux.Wait.Account.{its, received, held, AllNew, drop_events_lem, wait_cand_accounts}
use wetype_ime_linux.Fetch.{Choice, Fetched, fetch_cands, clear_choices}
use wetype_ime_linux.Daemon.{
  Engine, Settings, Daemon, Batch, ok, empty, select_candidate, reply, call, send_keys, settled,
  settle, waited, fetch_found, wait_fetch, reply_skips, reply_cands, collect, params,
}
use wetype_ime_linux.Daemon.Kept.{
  Kept, none-some, some_inj, send_keys-Kept, collect-Kept, reply_skips-Kept, settle_cases,
  wait_fetch-Waited,
}
use wetype_ime_linux.Daemon.Commands.{
  no_keys, do_keys, do_choose, is_partial, renew, do_reset, drop_current,
}

-- The iterators deleted and the one in use.
abbrev pub ended : Daemon → List ℕ
ended s = s.f.deleted ++ held s.f.cur_it

-- Between two states, what was observed, and that the iterators in it are accounted for.
pub record Moved (s s' : Daemon) : Type 0 where
  pub used : List Obs
  pub split : s.obs ≡ used ++ s'.obs
  pub its : Perm (ended s') (ended s ++ received used)

swap_last : (xs ys zs : List ℕ) → Perm ((xs ++ ys) ++ zs) ((xs ++ zs) ++ ys)
swap_last xs ys zs = subst (Perm ((xs ++ ys) ++ zs)) (sym (append_assoc xs zs ys)) (
    subst (λ l. Perm l (xs ++ (zs ++ ys))) (sym (append_assoc xs ys zs))
      (Perm.append (Perm.refl xs) (perm_append_comm ys zs)))

pub received-append : (xs ys : List Obs) → received (xs ++ ys) ≡ received xs ++ received ys
received-append [] ys = refl
received-append (x ∷ xs) ys =
    ap (◌++◌ (its x.queue)) (received-append xs ys)
    ∙ sym (append_assoc (its x.queue) (received xs) (received ys))

pub Moved-trans : {s t u : Daemon} → Moved s t → Moved t u → Moved s u
Moved-trans {s} {t} {u} a b = record {
  used = a.used ++ b.used;
  split = a.split ∙ ap (◌++◌ a.used) b.split ∙ sym (append_assoc a.used b.used u.obs);
  its = Perm.trans b.its (
      subst (Perm (ended t ++ received b.used))
        (append_assoc (ended s) (received a.used) (received b.used)
          ∙ ap (◌++◌ (ended s)) (sym (received-append a.used b.used)))
        (Perm.append a.its (Perm.refl (received b.used))));
}

-- A step that observes nothing and leaves the iterators alone.
pub Moved-same :
    {s t : Daemon} → t.obs ≡ s.obs → t.f.cur_it ≡ s.f.cur_it → t.f.deleted ≡ s.f.deleted → Moved s t
Moved-same {s = s} {t = t} o c d = record {
  used = [];
  split = sym o;
  its =
      subst (λ l. Perm l (ended s ++ [])) (sym (ap₂ ◌++◌ d (ap held c)))
        (subst (Perm (ended s)) (sym (append-nil (ended s))) (Perm.refl (ended s)));
}

settle-Moved :
    (s s' : Daemon)
    → AllNew s.f.cur_it s.obs
    → settle s ≡ some s'
    → Moved s s' × AllNew s.f.cur_it s'.obs × (s'.f.cur_it ≡ s.f.cur_it)
unfolding settled
settle-Moved s s' h e =
    let (o, os, split, z) = settle_cases s s' e in
    let n : AllNew s.f.cur_it (o ∷ os) = subst (AllNew s.f.cur_it) split h in
    let same : (settled o os s).f.deleted ≡ s.f.deleted ++ its o.queue =
      drop_events_lem s.f.cur_it o.queue s.f.deleted n.0 in
    subst (λ t. Moved s t × AllNew s.f.cur_it t.obs × (t.f.cur_it ≡ s.f.cur_it)) (sym z)
      (
        record {
          used = o ∷ [];
          split = split;
          its =
              subst (λ l. Perm l (ended s ++ (its o.queue ++ [])))
                (ap (λ l. l ++ held s.f.cur_it) (sym same))
                (subst (λ l. Perm ((s.f.deleted ++ its o.queue) ++ held s.f.cur_it) (ended s ++ l))
                  (sym (append-nil (its o.queue)))
                  (swap_last s.f.deleted (its o.queue) (held s.f.cur_it)));
        },
        n.1,
        refl,
      )

free_it-held : (it cur : ℕ) (log : List ℕ) → it ≢ cur → free_it it cur log ≡ log ++ held cur
unfolding free_it
free_it-held it cur log ne = elim (Bool-cases (cur == 0)) [
  | inl z ↦ rw z (sym (append-nil log))
  | inr nz ↦ rw (nz, ==_of_ne cur it (λ q. ne (sym q)))
]

fetch_cands-ended :
    (o : Option ℤ) (g : ℕ → Reg → ℕ × Reg) (it : ℕ) (f : Fetched)
    → (it == 0) ≡ false
    → ((fetch_cands o (some g) it f).cur_it ≡ it)
      × ((fetch_cands o (some g) it f).deleted ≡ free_it it f.cur_it f.deleted)
unfolding fetch_cands
fetch_cands-ended o g it f nz = rw (fetch_cands, nz) (refl, refl)

-- The fetch deletes the iterator that was in use, and then uses the one found.
fetch_found-ended :
    (e : Engine) (c : Settings) (g : ℕ → ℕ → Reg → ℕ × Reg) (it : ℕ) (s : Daemon)
    → e.get_n ≡ some g
    → (it ≢ s.f.cur_it) ⊎ (it ≡ 0)
    → Perm (ended (fetch_found e c it s).1) ((s.f.deleted ++ held it) ++ held s.f.cur_it)
      × ((fetch_found e c it s).1.obs ≡ s.obs)
unfolding fetch_found
fetch_found-ended e c g it s ge h = elim (Bool-cases (it == 0)) [
  | inl z ↦
      rw (fetch_found, z)
        (
          subst (λ l. Perm (ended s) (l ++ held s.f.cur_it)) (sym (append-nil s.f.deleted))
              (Perm.refl (ended s)),
          refl,
        )
  | inr nz ↦
      let ne : it ≢ s.f.cur_it = elim h [ inl n ↦ n | inr n ↦ absurd (ground (arith, n, nz)) ] in
      let (cur, del) = fetch_cands-ended c.max_setting (g it) it s.f nz in
      let log = del ∙ free_it-held it s.f.cur_it s.f.deleted ne in
      rw (fetch_found, nz, ge)
        (
          subst (λ l. Perm l ((s.f.deleted ++ it ∷ []) ++ held s.f.cur_it))
              (sym (ap₂ ◌++◌ log (ap held cur)))
              (rw nz (swap_last s.f.deleted (held s.f.cur_it) (it ∷ []))),
          refl,
        )
]

wait_fetch-Moved :
    (e : Engine) (c : Settings) (g : ℕ → ℕ → Reg → ℕ × Reg) (x : List ℕ) (s : Daemon)
    (r : ℕ × Daemon)
    → e.get_n ≡ some g
    → AllNew s.f.cur_it s.obs
    → wait_fetch e c x s ≡ some r
    → Moved s r.1
unfolding params waited
wait_fetch-Moved e c g x s r ge h eq =
    let d = wait_fetch-Waited e c x s r eq in
    let (used, split, log, apart) =
      wait_cand_accounts (params c x d.t0 s) s.f.deleted s.obs d.os d.w h d.ends in
    let t = waited d.ts d.os d.w s in
    let (its', obs') = fetch_found-ended e c g d.w.best t ge apart in
    let moved : Moved s (fetch_found e c d.w.best t).1 = record {
      used = used;
      split = split ∙ ap (◌++◌ used) (sym obs');
      its =
          Perm.trans
            (subst (λ l. Perm (ended (fetch_found e c d.w.best t).1) (l ++ held s.f.cur_it)) log
              its')
            (swap_last s.f.deleted (received used) (held s.f.cur_it));
    } in
    subst (λ (q : ℕ × Daemon). Moved s q.1) (sym d.fetched) moved

Kept-Moved : {s t : Daemon} → Kept s t → Moved s t
Kept-Moved k = Moved-same k.obs k.cur k.deleted

AllNew-Kept : {s t : Daemon} (cur : ℕ) → Kept s t → AllNew cur s.obs → AllNew cur t.obs
AllNew-Kept cur k h = subst (AllNew cur) (sym k.obs) h

pub drop_current-Moved : (s : Daemon) → Moved s (drop_current s)
unfolding drop_current
drop_current-Moved s = elim (Bool-cases (s.f.cur_it == 0)) [
  | inl z ↦ rw (drop_current, z) (Moved-same refl refl refl)
  | inr nz ↦ record {
    used = [];
    split = rw nz refl;
    its = rw (drop_current, nz) (Perm.refl ((s.f.deleted ++ s.f.cur_it ∷ []) ++ []));
  }
]

pub cur-drop_current : (s : Daemon) → (drop_current s).f.cur_it ≡ 0
unfolding drop_current
cur-drop_current s = elim (Bool-cases (s.f.cur_it == 0)) [
  | inl z ↦ rw (drop_current, z) (ground (arith, z))
  | inr nz ↦ rw (drop_current, nz)
]

renew-Moved : (e : Engine) (s : Daemon) → Moved s (renew e s) × ((renew e s).f.cur_it ≡ 0)
unfolding renew call clear_choices
renew-Moved e s =
    let s₀ = record s { f = clear_choices s.f } in
    (
      Moved-trans (Moved-same {s = s} {t = s₀} refl refl refl) (
          Moved-trans (drop_current-Moved s₀)
            (Moved-same {s = drop_current s₀} {t = renew e s} refl refl refl)),
      cur-drop_current s₀,
    )

-- After `C`, every iterator received has been given back.
pub do_reset-Moved :
    (e : Engine) (s s' : Daemon)
    → AllNew s.f.cur_it s.obs
    → do_reset e s ≡ some s'
    → Moved s s' × (s'.f.cur_it ≡ 0)
unfolding reply do_reset
do_reset-Moved e s s' h eq = elim (Option-cases (settle s)) [
  | inl n ↦ let q : do_reset e s ≡ none = rw (do_reset, n) in absurd (none-some (sym q ∙ eq))
  | inr (s₁, y) ↦
      let q : do_reset e s ≡ some (reply ok (renew e s₁)) = rw (do_reset, y) in
      let (m, z) = renew-Moved e s₁ in
      let u = reply ok (renew e s₁) in
      subst (λ t. Moved s t × (t.f.cur_it ≡ 0)) (some_inj (sym q ∙ eq))
        (
          Moved-trans (settle-Moved s s₁ h y).0
              (Moved-trans m (Moved-same {s = renew e s₁} {t = u} refl refl refl)),
          z,
        )
]

-- After a settled state, calls of the engine, and a wait with its fetch.
answered-Moved :
    (e : Engine) (c : Settings) (g : ℕ → ℕ → Reg → ℕ × Reg) (x : List ℕ) (s s₁ s₂ : Daemon)
    (r : ℕ × Daemon)
    → e.get_n ≡ some g
    → AllNew s.f.cur_it s.obs
    → settle s ≡ some s₁
    → Kept s₁ s₂
    → wait_fetch e c x s₂ ≡ some r
    → Moved s r.1
answered-Moved e c g x s s₁ s₂ r ge h y k w =
    let (m, n, cur) = settle-Moved s s₁ h y in
    let now : AllNew s₂.f.cur_it s₂.obs =
      subst (λ i. AllNew i s₂.obs) (sym (k.cur ∙ cur)) (AllNew-Kept s.f.cur_it k n) in
    Moved-trans m (Moved-trans (Kept-Moved k) (wait_fetch-Moved e c g x s₂ r ge now w))

pub do_choose-Moved :
    (e : Engine) (c : Settings) (g : ℕ → ℕ → Reg → ℕ × Reg) (x : Choice) (s s' : Daemon)
    → e.get_n ≡ some g
    → AllNew s.f.cur_it s.obs
    → do_choose e c x s ≡ some s'
    → Moved s s'
unfolding do_choose call reply reply_cands
do_choose-Moved e c g x s s' ge h eq = elim (Option-cases (settle s)) [
  | inl n ↦ let q : do_choose e c x s ≡ none = rw (do_choose, n) in absurd (none-some (sym q ∙ eq))
  | inr (s₁, y) ↦
      let s₂ = call e (select_candidate x.text x.id) s₁ in
      let rest = drop (pos_part x.cover) s.sent in
      let s₃ = record s₂ { sent = rest } in
      elim (Bool-cases (is_partial s x.cover)) [
        | inr z ↦
            let u = reply ok (record s₂ { sent = []; sent_known = false }) in
            let q : do_choose e c x s ≡ some u = rw (do_choose, y, z) in
            subst (Moved s) (some_inj (sym q ∙ eq))
              (Moved-trans (settle-Moved s s₁ h y).0 (Moved-same {s = s₁} {t = u} refl refl refl))
        | inl z ↦ elim (Option-cases (wait_fetch e c rest s₃)) [
          | inl n ↦
              let q : do_choose e c x s ≡ none = rw (do_choose, y, z, n) in
              absurd (none-some (sym q ∙ eq))
          | inr ((got, t), w) ↦
              let u = reply_cands got t in
              let q : do_choose e c x s ≡ some u = rw (do_choose, y, z, w) in
              let k : Kept s₁ s₃ = record {
                out = refl;
                input = refl;
                obs = refl;
                t0s = refl;
                cur = refl;
                deleted = refl;
              } in
              subst (Moved s) (some_inj (sym q ∙ eq)) (
                Moved-trans (answered-Moved e c g rest s s₁ s₃ (got, t) ge h y k w)
                  (Moved-same {s = t} {t = u} refl refl refl))
        ]
      ]
]

pub do_keys-Moved :
    (e : Engine) (c : Settings) (g : ℕ → ℕ → Reg → ℕ × Reg) (single : Bool) (b : Batch)
    (s s' : Daemon)
    → e.get_n ≡ some g
    → AllNew s.f.cur_it s.obs
    → do_keys e c single b s ≡ some s'
    → Moved s s'
unfolding do_keys reply reply_cands
do_keys-Moved e c g single b s s' ge h eq = elim (Bool-cases (no_keys b s)) [
  | inl z ↦
      let u = reply empty (reply_skips b.skipped s) in
      let q : do_keys e c single b s ≡ some u = rw (do_keys, z) in
      let (o, f) = reply_skips-Kept b.skipped s in
      subst (Moved s) (some_inj (sym q ∙ eq)) (
        Moved-same {s = s} {t = u} o (ap (λ (x : Fetched). x.cur_it) f)
          (ap (λ (x : Fetched). x.deleted) f))
  | inr z ↦ elim (Option-cases (settle s)) [
    | inl n ↦
        let q : do_keys e c single b s ≡ none = rw (do_keys, z, n) in
        absurd (none-some (sym q ∙ eq))
    | inr (s₁, y) ↦
        let s₂ = send_keys e single b.keys s₁ in
        let x = if s₂.sent_known then s₂.sent else [] in
        elim (Option-cases (wait_fetch e c x s₂)) [
          | inl n ↦
              let q : do_keys e c single b s ≡ none = rw (do_keys, z, y, n) in
              absurd (none-some (sym q ∙ eq))
          | inr ((got, t), w) ↦
              let t' = reply_skips b.skipped t in
              let v = reply_cands got t' in
              let q : do_keys e c single b s ≡ some (collect e c v) = rw (do_keys, z, y, w) in
              let (o, f) = reply_skips-Kept b.skipped t in
              subst (Moved s) (some_inj (sym q ∙ eq)) (
                Moved-trans
                  (answered-Moved e c g x s s₁ s₂ (got, t) ge h y
                    (send_keys-Kept e single b.keys s₁) w)
                  (Moved-trans
                    (Moved-same {s = t} {t = v} o (ap (λ (x : Fetched). x.cur_it) f)
                      (ap (λ (x : Fetched). x.deleted) f))
                    (Kept-Moved (collect-Kept e c v))))
        ]
  ]
]
