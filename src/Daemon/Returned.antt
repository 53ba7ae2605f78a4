-- ===== src/Daemon/Returned.antt =====
-- Over a whole run of the loop of `run_daemon` (harness/jinterop.c), every iterator that the daemon
-- takes from the queue goes back to the engine.
use wetype_ime_linux.Base.{
  ℕ, zero, suc, ◌≡◌, ◌≢◌, refl, sym, ap, subst, ◌∙◌, inl, inr, List, [], ◌∷◌, ◌++◌, All, Option,
  none, some, true, ◌&&◌, ◌==◌, ==_iff, if◌then◌else◌, if-both, Bool-cases, arith,
}
use mathlib.Core.List.{
  Mem, mem-append_right, mem-cons_of_mem, mem-cons, mem-cons_self, not-mem-nil, Nodup, Nodup-append,
  Disjoint-left, Perm, append_assoc, append-nil,
}
use mathlib.Core.List.Perm
use mathlib.Core.HLevel.{⊥_prop}
use mathlib.Core.Logic.Or
use wetype_ime_linux.Base.Int.{pos, ltb_ℤ}
use wetype_ime_linux.Registry.{Reg}
use wetype_ime_linux.Events.{CandEvent}
use wetype_ime_linux.Wait.{Obs}
use wetype_ime_linux.Wait.Account.{its, received, held, IsNew, AllNew}
use wetype_ime_linux.Command.{In, Read, line, no_line, out_of_fuel, cmd_read, feed_size}
use wetype_ime_linux.Fetch.{clear_choices}
use wetype_ime_linux.Daemon.{
  Reply, Engine, Settings, Daemon, bye, reply, call, line_size, destroy_session,
}
use wetype_ime_linux.Daemon.Kept.{none-some, some_inj}
use wetype_ime_linux.Daemon.Commands.{
  Next, go_on, quit, going, handle_input, handle, finish, daemon_loop,
}
use wetype_ime_linux.Daemon.Iterators.{Moved, Moved-same, Moved-trans, ended, received-append}
use wetype_ime_linux.Daemon.Ledger.{handle-Moved}

-- The iterators still to come are not NULL, and none of them, nor of those at hand, comes twice.
pub record IsDistinct (s : Daemon) : Type 0 where
  pub once : Nodup (ended s ++ received s.obs)
  pub real : All (λ (i : ℕ). i ≢ 0) (received s.obs)

abbrev IsReal : List ℕ → Type 0
IsReal = All (λ (i : ℕ). i ≢ 0)

IsReal-tail : (xs ys : List ℕ) → IsReal (xs ++ ys) → IsReal ys
IsReal-tail [] ys h = h
IsReal-tail (x ∷ xs) ys h = IsReal-tail xs ys h.1

its-IsNew :
    (cur : ℕ) (es : List CandEvent) (rest : List ℕ)
    → IsReal (its es ++ rest)
    → ((a : ℕ) → Mem a (its es ++ rest) → a ≢ cur)
    → IsNew cur es
its-IsNew cur [] rest r h = tt
its-IsNew cur (e ∷ es) rest r h =
    ((r.0, h e.it mem-cons_self), its-IsNew cur es rest r.1 (λ a m. h a (mem-cons_of_mem e.it m)))

received-AllNew :
    (cur : ℕ) (os : List Obs)
    → IsReal (received os)
    → ((a : ℕ) → Mem a (received os) → a ≢ cur)
    → AllNew cur os
received-AllNew cur [] r h = tt
received-AllNew cur (o ∷ os) r h = (
  its-IsNew cur o.queue (received os) r h,
  received-AllNew cur os (IsReal-tail (its o.queue) (received os) r)
      (λ a m. h a (mem-append_right (its o.queue) m)),
)

real_mem : (a : ℕ) (xs : List ℕ) → IsReal xs → Mem a xs → a ≢ 0
real_mem a [] h m = absurd (not-mem-nil m)
real_mem a (x ∷ xs) h m =
    λ z. Or.elim ⊥_prop (mem-cons.0 m) (λ e. h.0 (sym e ∙ z)) (λ n. real_mem a xs h.1 n z)

IsDistinct-AllNew : (s : Daemon) → IsDistinct s → AllNew s.f.cur_it s.obs
IsDistinct-AllNew s v = received-AllNew s.f.cur_it s.obs v.real (λ a m e.
    elim (Bool-cases (s.f.cur_it == 0)) [
      | inl z ↦ real_mem a (received s.obs) v.real m (e ∙ (==_iff s.f.cur_it 0).0 z)
      | inr nz ↦
          let mine : held s.f.cur_it ≡ s.f.cur_it ∷ [] = rw nz refl in
          let here : Mem a (ended s) =
            mem-append_right s.f.deleted
              (subst (Mem a) (sym mine) (subst (λ b. Mem a (b ∷ [])) e mem-cons_self)) in
          Disjoint-left.0 (Nodup-append.0 v.once).2 a here m
    ])

Moved-IsDistinct : {s t : Daemon} → Moved s t → IsDistinct s → IsDistinct t
Moved-IsDistinct {s} {t} a v =
    let all : received s.obs ≡ received a.used ++ received t.obs =
      ap received a.split ∙ received-append a.used t.obs in
    record {
      once =
          Perm.nodup
            (Perm.symm (
              subst (Perm (ended t ++ received t.obs))
                (append_assoc (ended s) (received a.used) (received t.obs)
                  ∙ ap (◌++◌ (ended s)) (sym all))
                (Perm.append a.its (Perm.refl (received t.obs)))))
            v.once;
      real = IsReal-tail (received a.used) (received t.obs) (subst IsReal all v.real);
    }

reply-Moved :
    (s t : Daemon) (r : Reply)
    → t.obs ≡ s.obs
    → t.f.deleted ≡ s.f.deleted
    → t.f.cur_it ≡ s.f.cur_it
    → Moved s (reply r t)
unfolding reply
reply-Moved s t r o d c = Moved-same o c d

-- The end gives back the iterator in use and takes nothing more.
finish_ended :
    (e : Engine) (s : Daemon) → ((finish e s).f.deleted ≡ ended s) × ((finish e s).obs ≡ s.obs)
unfolding finish reply call clear_choices
finish_ended e s =
    let gone = if s.f.cur_it == 0 then s.f.deleted else s.f.deleted ++ s.f.cur_it ∷ [] in
    let all : gone ≡ ended s = elim (Bool-cases (s.f.cur_it == 0)) [
      | inl z ↦ rw z (sym (append-nil s.f.deleted))
      | inr z ↦ rw z refl
    ] in
    let s₂ = record s { f = clear_choices (record (s.f) { deleted = gone }) } in
    let P = λ (t : Daemon). ((reply bye t).f.deleted ≡ ended s) × ((reply bye t).obs ≡ s.obs) in
    if-both P (ltb_ℤ (pos 0) s.sid && e.has_destroy) (call e destroy_session s₂) s₂ (all, refl)
      (all, refl)

going_quit : (o : Option Daemon) (t : Daemon) → going o ≡ some (quit t) → ⊥
going_quit none t h = cc
going_quit (some s) t h = cc

pub handle-quit :
    (e : Engine) (c : Settings) (raw : List ℕ) (s t : Daemon)
    → handle e c raw s ≡ some (quit t)
    → s ≡ t
unfolding handle handle_input
handle-quit e c raw s t h = ground (arith, h)

-- What the daemon gave back by the end of a run: the iterators of its start and those that it took
-- from the queue in the run, each once; those that it did not take are not among them.
pub record AllReturned (s s' : Daemon) : Type 0 where
  pub used : List Obs
  pub split : s.obs ≡ used ++ s'.obs
  pub deleted : Perm s'.f.deleted (ended s ++ received used)
  pub once : Nodup s'.f.deleted
  pub left : (i : ℕ) → Mem i (received s'.obs) → ¬ Mem i s'.f.deleted

close :
    {s t u : Daemon}
    → IsDistinct s
    → Moved s t
    → u.f.deleted ≡ ended t
    → u.obs ≡ t.obs
    → AllReturned s u
close {s} {t} {u} v a d o =
    let apart = Nodup-append.0 (Moved-IsDistinct a v).once in
    record {
      used = a.used;
      split = a.split ∙ ap (◌++◌ a.used) (sym o);
      deleted = subst (λ l. Perm l (ended s ++ received a.used)) (sym d) a.its;
      once = subst Nodup (sym d) apart.0;
      left = λ i m k.
          Disjoint-left.0 apart.2 i (subst (Mem i) d k) (subst (λ os. Mem i (received os)) o m);
    }

-- A run that goes on from `t` is a run from `s`.
reopen : {s t u : Daemon} → Moved s t → AllReturned t u → AllReturned s u
reopen {s} {t} {u} a b = record {
  used = a.used ++ b.used;
  split = a.split ∙ ap (◌++◌ a.used) b.split ∙ sym (append_assoc a.used b.used u.obs);
  deleted = Perm.trans b.deleted (
      subst (Perm (ended t ++ received b.used))
        (append_assoc (ended s) (received a.used) (received b.used)
          ∙ ap (◌++◌ (ended s)) (sym (received-append a.used b.used)))
        (Perm.append a.its (Perm.refl (received b.used))));
  once = b.once;
  left = b.left;
}

module _ (e : Engine) (c : Settings) (g : ℕ → ℕ → Reg → ℕ × Reg) (ge : e.get_n ≡ some g) where
  finish-AllReturned :
      (s s' : Daemon) → IsDistinct s → some (finish e s) ≡ some s' → AllReturned s s'
  finish-AllReturned s s' v h = subst (AllReturned s) (some_inj h) (
      close v (Moved-same {s = s} {t = s} refl refl refl) (finish_ended e s).0 (finish_ended e s).1)

  with_input : (i : In) (s : Daemon) → Moved s (record s { input = i })
  with_input i s = Moved-same refl refl refl

  -- When the loop ends, at `Q` or at the end of the input, every iterator that the daemon had or took
  -- from the queue of events has been given back, each once, and those still to be taken have not:
  -- provided that the engine has its function for candidates, and delivers no iterator twice, nor
  -- NULL. The iterators that the queue dropped for want of room are not among those to be taken.
  pub daemon_loop-AllReturned :
      (fuel : ℕ) (s s' : Daemon)
      → IsDistinct s
      → daemon_loop fuel e c s ≡ some s'
      → AllReturned s s'
  unfolding daemon_loop
  daemon_loop-AllReturned zero s s' v h = absurd (none-some h)
  daemon_loop-AllReturned (suc fuel) s s' v h =
      got (λ t. daemon_loop-AllReturned fuel t s')
        (cmd_read (suc (feed_size s.input.feed)) line_size true s.input) refl
    where
      handled :
          (ih : (t : Daemon) → IsDistinct t → daemon_loop fuel e c t ≡ some s' → AllReturned t s')
          (l : List ℕ) (i : In) (n : Option Next)
          → cmd_read (suc (feed_size s.input.feed)) line_size true s.input ≡ line l i
          → handle e c l (record s { input = i }) ≡ n
          → AllReturned s s'
      handled ih l i none z y =
          let q : daemon_loop (suc fuel) e c s ≡ none = rw (daemon_loop, z, y) in
          absurd (none-some (sym q ∙ h))
      handled ih l i (some (quit t)) z y =
          let q : daemon_loop (suc fuel) e c s ≡ some (finish e t) = rw (daemon_loop, z, y) in
          let t₀ = record s { input = i } in
          reopen (with_input i s) (
            finish-AllReturned t₀ s' (Moved-IsDistinct (with_input i s) v)
              (ap (λ d. some (finish e d)) (handle-quit e c l t₀ t y) ∙ sym q ∙ h))
      handled ih l i (some (go_on t)) z y =
          let q : daemon_loop (suc fuel) e c s ≡ daemon_loop fuel e c t = rw (daemon_loop, z, y) in
          let t₀ = record s { input = i } in
          let v₀ = Moved-IsDistinct (with_input i s) v in
          let a =
            Moved-trans (with_input i s)
              (handle-Moved e c g ge l t₀ t (IsDistinct-AllNew t₀ v₀) y) in
          reopen a (ih t (Moved-IsDistinct a v) (sym q ∙ h))

      got :
          (ih : (t : Daemon) → IsDistinct t → daemon_loop fuel e c t ≡ some s' → AllReturned t s')
          (r : Read)
          → cmd_read (suc (feed_size s.input.feed)) line_size true s.input ≡ r
          → AllReturned s s'
      got ih out_of_fuel z =
          let q : daemon_loop (suc fuel) e c s ≡ none = rw (daemon_loop, z) in
          absurd (none-some (sym q ∙ h))
      got ih (no_line i) z =
          let q : daemon_loop (suc fuel) e c s ≡ some (finish e (record s { input = i })) =
            rw (daemon_loop, z) in
          reopen (with_input i s) (
            finish-AllReturned (record s { input = i }) s' (Moved-IsDistinct (with_input i s) v)
              (sym q ∙ h))
      got ih (line l i) z = handled ih l i (handle e c l (record s { input = i })) z refl
