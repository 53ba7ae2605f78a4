-- ===== src/Wait/Account.antt =====
-- No iterator is lost or deleted twice while the daemon of harness/jinterop.c waits.
use wetype_ime_linux.Base.{
  ℕ, ◌≡◌, ◌≢◌, refl, sym, ap, ap₂, ◌∙◌, ◌⊎◌, inl, inr, List, [], ◌∷◌, ◌++◌, map, Option, some, ◌==◌,
  ==_of_ne, if◌then◌else◌, All, Bool-cases, subst, arith,
}
use mathlib.Core.List.{append_assoc, append-nil}
use wetype_ime_linux.Events.{CandEvent}
use wetype_ime_linux.Wait.{
  Obs, Wait, Params, free_it, drop_events, take_event, take_events, take_round, stops, wait_loop,
  wait_cand, initial,
}

abbrev pub its : List CandEvent → List ℕ
its = map (λ e. e.it)

-- The iterators of all events that some rounds took.
abbrev pub received : List Obs → List ℕ
received [] = []
received (o ∷ os) = its o.queue ++ received os

-- The iterator that the daemon holds, if it holds one.
abbrev pub held : ℕ → List ℕ
held best = if best == 0 then [] else best ∷ []

-- Engine iterators are not NULL and are not the one that the daemon still uses.
abbrev pub IsNew : ℕ → List CandEvent → Type 0
IsNew cur = All (λ (e : CandEvent). (e.it ≢ 0) × (e.it ≢ cur))

abbrev pub AllNew : ℕ → List Obs → Type 0
AllNew cur = All (λ (o : Obs). IsNew cur o.queue)

pub drop_events_lem :
    (cur : ℕ) (es : List CandEvent) (log : List ℕ)
    → IsNew cur es
    → drop_events cur es log ≡ log ++ its es
unfolding drop_events free_it
drop_events_lem cur [] log h = sym (append-nil log)
drop_events_lem cur (e ∷ es) log h =
    rw (==_of_ne e.it 0 h.0.0, ==_of_ne e.it cur h.0.1)
      (drop_events_lem cur es (log ++ e.it ∷ []) h.1 ∙ append_assoc log (e.it ∷ []) (its es))

take_event_lem :
    (x : List ℕ) (cur : ℕ) (e : CandEvent) (w : Wait)
    → (w.best ≢ cur) ⊎ (w.best ≡ 0)
    → (take_event x cur e w).deleted ≡ w.deleted ++ held w.best
unfolding take_event free_it
take_event_lem x cur e w (inl ne) = ground (arith, append-nil w.deleted)
take_event_lem x cur e w (inr z) = rw z (sym (append-nil w.deleted))

best-take_event :
    (x : List ℕ) (cur : ℕ) (e : CandEvent) (w : Wait) → (take_event x cur e w).best ≡ e.it
unfolding take_event
best-take_event x cur e w = refl

held_of_ne : (n : ℕ) → n ≢ 0 → held n ≡ n ∷ []
held_of_ne n h = rw (==_of_ne n 0 h)

take_events_lem :
    (x : List ℕ) (cur : ℕ) (es : List CandEvent) (w : Wait)
    → IsNew cur es
    → (w.best ≢ cur) ⊎ (w.best ≡ 0)
    → let w' = take_events x cur es w in
      (w'.deleted ++ held w'.best ≡ (w.deleted ++ held w.best) ++ its es)
      × ((w'.best ≢ cur) ⊎ (w'.best ≡ 0))
unfolding take_events
take_events_lem x cur [] w h b = (sym (append-nil _), b)
take_events_lem x cur (e ∷ es) w h b =
    let w₁ = take_event x cur e w in
    let b₁ : w₁.best ≡ e.it = best-take_event x cur e w in
    let ih = take_events_lem x cur es w₁ h.1 (inl (λ q. h.0.1 (sym b₁ ∙ q))) in
    (
      ih.0
          ∙ ap₂ (λ l n. (l ++ held n) ++ its es) (take_event_lem x cur e w b) b₁
          ∙ ap (λ l. ((w.deleted ++ held w.best) ++ l) ++ its es) (held_of_ne e.it h.0.0)
          ∙ append_assoc (w.deleted ++ held w.best) (e.it ∷ []) (its es),
      ih.1,
    )

-- Every iterator received has been deleted, in the order received, but the one that is held.
pub record Accounted (cur : ℕ) (got : List ℕ) (w w' : Wait) : Type 0 where
  pub log : w'.deleted ++ held w'.best ≡ (w.deleted ++ held w.best) ++ got
  pub best : (w'.best ≢ cur) ⊎ (w'.best ≡ 0)

take_round-Accounted :
    (a : Params) (o : Obs) (w : Wait)
    → IsNew a.cur o.queue
    → (w.best ≢ a.cur) ⊎ (w.best ≡ 0)
    → Accounted a.cur (its o.queue) w (take_round a o w)
unfolding take_round
take_round-Accounted a o w h b = go o.queue h refl
  where
    go :
        (q : List CandEvent)
        → IsNew a.cur q
        → o.queue ≡ q
        → Accounted a.cur (its o.queue) w (take_round a o w)
    go [] n e = rw e (record { log = sym (append-nil _); best = b })
    go (x ∷ xs) n e =
        let (l, c) = take_events_lem a.expected a.cur (x ∷ xs) w n b in
        rw e (record { log = l; best = c })

wait_loop-Accounted :
    (a : Params) (os rest : List Obs) (w w' : Wait)
    → AllNew a.cur os
    → (w.best ≢ a.cur) ⊎ (w.best ≡ 0)
    → wait_loop a os w ≡ some (w', rest)
    → (used : List Obs) × (os ≡ used ++ rest) × Accounted a.cur (received used) w w'
unfolding wait_loop
wait_loop-Accounted a [] rest w w' h b e = cc
wait_loop-Accounted a (o ∷ os) rest w w' h b e =
    let round = take_round-Accounted a o w h.0 b in
    let w₁ = take_round a o w in
    elim (Bool-cases (stops a o w)) [
      | inl stop ↦
          let (same, left) = ends w₁ os (rw stop at e) in
          (
            o ∷ [],
            ap (◌∷◌ o) left,
            subst (λ x. Accounted a.cur (its o.queue ++ []) w x) same
                (record {
                  log =
                      round.log
                      ∙ ap (◌++◌ (w.deleted ++ held w.best)) (sym (append-nil (its o.queue)));
                  best = round.best;
                }),
          )
      | inr go_on ↦
          let (used, split, acc) =
            wait_loop-Accounted a os rest w₁ w' h.1 round.best (rw go_on at e) in
          (
            o ∷ used,
            ap (◌∷◌ o) split,
            record {
              log =
                  acc.log
                  ∙ ap (λ l. l ++ received used) round.log
                  ∙ append_assoc (w.deleted ++ held w.best) (its o.queue) (received used);
              best = acc.best;
            },
          )
    ]
  where
    ends :
        (x : Wait) (os' : List Obs)
        → ◌≡◌ {A = Option (Wait × List Obs)} (some (x, os')) (some (w', rest))
        → (x ≡ w') × (os' ≡ rest)
    ends x os' p = (cc, cc)

-- When a wait ends, each iterator that the engine delivered meanwhile has been deleted exactly once,
-- in the order received, except the one returned (none is, when the result is 0), which is not the
-- one in use. The engine's iterators are assumed not to be NULL nor the one still in use.
pub wait_cand_accounts :
    (a : Params) (log : List ℕ) (os rest : List Obs) (w : Wait)
    → AllNew a.cur os
    → wait_cand a log os ≡ some (w, rest)
    → (used : List Obs) × (os ≡ used ++ rest)
      × (w.deleted ++ held w.best ≡ log ++ received used)
      × ((w.best ≢ a.cur) ⊎ (w.best ≡ 0))
unfolding wait_cand initial
wait_cand_accounts a log os rest w h e =
    let (used, split, acc) = wait_loop-Accounted a os rest (initial log) w h (inr refl) e in
    (used, split, acc.log ∙ ap (λ l. l ++ received used) (append-nil log), acc.best)
