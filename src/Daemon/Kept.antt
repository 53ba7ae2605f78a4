-- ===== src/Daemon/Kept.antt =====
-- What the parts of the commands of `run_daemon` (harness/jinterop.c) leave alone.
use wetype_ime_linux.Base.{
  ℕ, zero, suc, ◌+◌, ◌≡◌, refl, sym, ap, ◌∙◌, List, [], ◌∷◌, ◌++◌, none, some, Bool, true, false,
  not, ◌&&◌, ◌||◌, ltb, ◌==◌, Bool-cases, Option-cases, inl, inr, length, replicate, arith,
}
use mathlib.Core.List.{append_assoc, append-nil}
use wetype_ime_linux.Base.Int.{pos, leb_ℤ}
use wetype_ime_linux.Wait.{Obs, Wait, wait_cand}
use wetype_ime_linux.Daemon.{
  skip, Engine, Settings, Daemon, reply, call, daemon_key, send_key, send_keys, settled, settle,
  waited, fetch_found, wait_fetch, reply_skips, collect, params,
}

-- Everything but the registry, the calls made and the letters noted.
pub record Kept (s s' : Daemon) : Type 0 where
  pub out : s'.out ≡ s.out
  pub input : s'.input ≡ s.input
  pub obs : s'.obs ≡ s.obs
  pub t0s : s'.t0s ≡ s.t0s
  pub cur : s'.f.cur_it ≡ s.f.cur_it
  pub deleted : s'.f.deleted ≡ s.f.deleted

Kept-refl : (s : Daemon) → Kept s s
Kept-refl s = record {
  out = refl;
  input = refl;
  obs = refl;
  t0s = refl;
  cur = refl;
  deleted = refl;
}

Kept-trans : {s t u : Daemon} → Kept s t → Kept t u → Kept s u
Kept-trans a b = record {
  out = b.out ∙ a.out;
  input = b.input ∙ a.input;
  obs = b.obs ∙ a.obs;
  t0s = b.t0s ∙ a.t0s;
  cur = b.cur ∙ a.cur;
  deleted = b.deleted ∙ a.deleted;
}

send_key-Kept : (e : Engine) (key : ℕ) (s : Daemon) → Kept s (send_key e key s)
unfolding send_key daemon_key call
send_key-Kept e key s = elim (Bool-cases (s.sent_known && ltb (length s.sent + 1) 256)) [
  | inl room ↦
      rw room
        (record { out = refl; input = refl; obs = refl; t0s = refl; cur = refl; deleted = refl })
  | inr full ↦
      rw full
        (record { out = refl; input = refl; obs = refl; t0s = refl; cur = refl; deleted = refl })
]

pub send_keys-Kept :
    (e : Engine) (single : Bool) (ks : List ℕ) (s : Daemon) → Kept s (send_keys e single ks s)
unfolding send_keys
send_keys-Kept e single [] s = Kept-refl s
send_keys-Kept e true (k ∷ ks) s = send_key-Kept e k s
send_keys-Kept e false (k ∷ ks) s =
    Kept-trans (send_key-Kept e k s) (send_keys-Kept e false ks (send_key e k s))

pub collect-Kept : (e : Engine) (c : Settings) (s : Daemon) → Kept s (collect e c s)
unfolding collect call
collect-Kept e c s =
    elim (Bool-cases (not e.has_gc || (leb_ℤ c.gc_every (pos 0) && leb_ℤ (pos 0) c.gc_every))) [
      | inl idle ↦ rw idle (Kept-refl s)
      | inr due ↦ elim (Bool-cases (leb_ℤ c.gc_every (pos (suc s.since_gc)))) [
        | inl now ↦
            rw (due, now)
              (record {
                out = refl;
                input = refl;
                obs = refl;
                t0s = refl;
                cur = refl;
                deleted = refl;
              })
        | inr later ↦
            rw (due, later)
              (record {
                out = refl;
                input = refl;
                obs = refl;
                t0s = refl;
                cur = refl;
                deleted = refl;
              })
      ]
    ]

pub some_inj {ℓ} : {A : Type ℓ} {x y : A} → some x ≡ some y → x ≡ y
some_inj {x = x} h = ap (λ o. elim o [ none ↦ x | some a ↦ a ]) h

pub none-some {ℓ} : {A : Type ℓ} {x : A} → none ≡ some x → ⊥
none-some h = cc

-- A settled state comes from the next observation.
pub settle_cases :
    (s s' : Daemon)
    → settle s ≡ some s'
    → (o : Obs) × (os : List Obs) × (s.obs ≡ o ∷ os) × (s' ≡ settled o os s)
unfolding settle settled
settle_cases s s' h = go s.obs refl
  where
    go :
        (l : List Obs)
        → s.obs ≡ l
        → (o : Obs) × (os : List Obs) × (s.obs ≡ o ∷ os) × (s' ≡ settled o os s)
    go [] e = let q : settle s ≡ none = rw (settle, e) in absurd (none-some (sym q ∙ h))
    go (o ∷ os) e =
        let q : settle s ≡ some (settled o os s) = rw (settle, e) in
        (o, os, e, some_inj (sym h ∙ q))

-- A wait and fetch that ended comes from a wait that ended.
pub record Waited (e : Engine) (c : Settings) (x : List ℕ) (s : Daemon) (r : ℕ × Daemon)
    : Type 0 where
  pub t0 : ℕ
  pub ts : List ℕ
  pub w : Wait
  pub os : List Obs
  pub ends : wait_cand (params c x t0 s) s.f.deleted s.obs ≡ some (w, os)
  pub fetched : r ≡ fetch_found e c w.best (waited ts os w s)

pub wait_fetch-Waited :
    (e : Engine) (c : Settings) (x : List ℕ) (s : Daemon) (r : ℕ × Daemon)
    → wait_fetch e c x s ≡ some r
    → Waited e c x s r
unfolding wait_fetch fetch_found waited wetype_ime_linux.Fetch.fetch_cands
wait_fetch-Waited e c x s r h = go s.t0s refl
  where
    go : (l : List ℕ) → s.t0s ≡ l → Waited e c x s r
    go [] z =
        let q : wait_fetch e c x s ≡ none = rw (wait_fetch, z) in absurd (none-some (sym q ∙ h))
    go (t0 ∷ ts) z = elim (Option-cases (wait_cand (params c x t0 s) s.f.deleted s.obs)) [
      | inl n ↦
          let h' : none ≡ some r = sym (rw (wait_fetch, z, n)) ∙ h in absurd (ground (arith, h'))
      | inr ((w, os), y) ↦
          let q : wait_fetch e c x s ≡ some (fetch_found e c w.best (waited ts os w s)) =
            rw (wait_fetch, z, y) in
          record { t0 = t0; ts = ts; w = w; os = os; ends = y; fetched = some_inj (sym h ∙ q) }
    ]

pub out-settle : (s s' : Daemon) → settle s ≡ some s' → s'.out ≡ s.out
unfolding settled
out-settle s s' h = let (o, os, _, z) = settle_cases s s' h in ap (λ (t : Daemon). t.out) z

out-fetch_found :
    (e : Engine) (c : Settings) (it : ℕ) (s : Daemon) → (fetch_found e c it s).1.out ≡ s.out
unfolding fetch_found
out-fetch_found e c it s = elim (Bool-cases (it == 0)) [ inl z ↦ rw z | inr z ↦ rw z ]

pub out-wait_fetch :
    (e : Engine) (c : Settings) (x : List ℕ) (s s' : Daemon) (got : ℕ)
    → wait_fetch e c x s ≡ some (got, s')
    → s'.out ≡ s.out
unfolding waited
out-wait_fetch e c x s s' got h =
    let d = wait_fetch-Waited e c x s (got, s') h in
    ap (λ (r : ℕ × Daemon). r.1.out) d.fetched
    ∙ out-fetch_found e c d.w.best (waited d.ts d.os d.w s)

pub out-reply_skips : (k : ℕ) (s : Daemon) → (reply_skips k s).out ≡ s.out ++ replicate k skip
unfolding reply_skips reply
out-reply_skips zero s = sym (append-nil s.out)
out-reply_skips (suc k) s = out-reply_skips k _ ∙ append_assoc s.out (skip ∷ []) (replicate k skip)

pub reply_skips-Kept :
    (k : ℕ) (s : Daemon) → ((reply_skips k s).obs ≡ s.obs) × ((reply_skips k s).f ≡ s.f)
unfolding reply_skips reply
reply_skips-Kept zero s = (refl, refl)
reply_skips-Kept (suc k) s = reply_skips-Kept k (reply skip s)

pub input-settle : (s s' : Daemon) → settle s ≡ some s' → s'.input ≡ s.input
unfolding settled
input-settle s s' h = let (o, os, _, z) = settle_cases s s' h in ap (λ (t : Daemon). t.input) z

input-fetch_found :
    (e : Engine) (c : Settings) (it : ℕ) (s : Daemon) → (fetch_found e c it s).1.input ≡ s.input
unfolding fetch_found
input-fetch_found e c it s = elim (Bool-cases (it == 0)) [ inl z ↦ rw z | inr z ↦ rw z ]

pub input-wait_fetch :
    (e : Engine) (c : Settings) (x : List ℕ) (s s' : Daemon) (got : ℕ)
    → wait_fetch e c x s ≡ some (got, s')
    → s'.input ≡ s.input
unfolding waited
input-wait_fetch e c x s s' got h =
    let d = wait_fetch-Waited e c x s (got, s') h in
    ap (λ (r : ℕ × Daemon). r.1.input) d.fetched
    ∙ input-fetch_found e c d.w.best (waited d.ts d.os d.w s)

pub input-reply_skips : (k : ℕ) (s : Daemon) → (reply_skips k s).input ≡ s.input
unfolding reply_skips reply
input-reply_skips zero s = refl
input-reply_skips (suc k) s = input-reply_skips k (reply skip s)
