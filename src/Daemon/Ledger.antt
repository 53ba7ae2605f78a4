-- ===== src/Daemon/Ledger.antt =====
-- The iterators over whole commands of `run_daemon` (harness/jinterop.c), and at its end.
use wetype_ime_linux.Base.{
  ℕ, ◌≡◌, refl, sym, subst, ◌∙◌, inl, inr, List, none, some, Bool, true, false, ◌&&◌, Bool-cases,
  Option-cases, drop, str_eqb, codes, get_elem?,
}
use wetype_ime_linux.Base.Int.{ℤ, pos, negsuc}
use wetype_ime_linux.Registry.{Reg}
use wetype_ime_linux.Wait.{is_empty}
use wetype_ime_linux.Wait.Account.{AllNew}
use wetype_ime_linux.Fetch.{until_nul}
use wetype_ime_linux.Daemon.{Reply, Engine, Settings, Daemon, can_reset, err, pong, ok, reply, call}
use wetype_ime_linux.Daemon.Kept.{none-some, some_inj}
use wetype_ime_linux.Daemon.Commands.{
  go_on, quit, going, strip, after_letter, first_is, find_symbol, do_invoke, gather, do_keys,
  do_input, has_id, do_choose, do_select, do_reset, handle_input, handle,
}
use wetype_ime_linux.Daemon.Replies.{next_inj, quit_go_on}
use wetype_ime_linux.Daemon.Answers.{going_inj}
use wetype_ime_linux.Daemon.Iterators.{
  Moved, Moved-same, Moved-trans, do_reset-Moved, do_choose-Moved, do_keys-Moved,
}

module _ (e : Engine) (c : Settings) (g : ℕ → ℕ → Reg → ℕ × Reg) (ge : e.get_n ≡ some g) where
  reply-Moved : (r : Reply) (s : Daemon) → Moved s (reply r s)
  unfolding reply
  reply-Moved r s = Moved-same refl refl refl

  do_select-Moved :
      (n : ℤ) (s s' : Daemon) → AllNew s.f.cur_it s.obs → do_select e c n s ≡ some s' → Moved s s'
  unfolding do_select
  do_select-Moved (negsuc n) s s' h eq = subst (Moved s) (some_inj eq) (reply-Moved err s)
  do_select-Moved (pos n) s s' h eq = elim (Option-cases (get_elem? s.f.choices n)) [
    | inl z ↦
        let q : do_select e c (pos n) s ≡ some (reply err s) = rw (do_select, z) in
        subst (Moved s) (some_inj (sym q ∙ eq)) (reply-Moved err s)
    | inr (x, y) ↦ elim (Bool-cases (has_id x)) [
      | inr z ↦
          let q : do_select e c (pos n) s ≡ some (reply err s) = rw (do_select, y, z) in
          subst (Moved s) (some_inj (sym q ∙ eq)) (reply-Moved err s)
      | inl z ↦
          let q : do_select e c (pos n) s ≡ do_choose e c x s = rw (do_select, y, z) in
          do_choose-Moved e c g x s s' ge h (sym q ∙ eq)
    ]
  ]

  do_input-Moved :
      (single : Bool) (keys : List ℕ) (s s' : Daemon)
      → AllNew s.f.cur_it s.obs
      → do_input e c single keys s ≡ some s'
      → Moved s s'
  unfolding do_input
  do_input-Moved single keys s s' h eq = elim (Option-cases (gather single keys s.input)) [
    | inl n ↦
        let q : do_input e c single keys s ≡ none = rw (do_input, n) in
        absurd (none-some (sym q ∙ eq))
    | inr (b, y) ↦
        let t = record s { input = b.input } in
        let q : do_input e c single keys s ≡ do_keys e c single b t = rw (do_input, y) in
        Moved-trans (Moved-same {s = s} {t = t} refl refl refl)
          (do_keys-Moved e c g single b t s' ge h (sym q ∙ eq))
  ]

  do_invoke-Moved : (name : List ℕ) (s : Daemon) → Moved s (do_invoke e name s)
  unfolding do_invoke call reply
  do_invoke-Moved name s = elim (Option-cases (find_symbol e name)) [
    | inl z ↦ rw (do_invoke, z) (Moved-same refl refl refl)
    | inr (x, z) ↦ rw (do_invoke, z) (Moved-same refl refl refl)
  ]

  handle_input-Moved :
      (l : List ℕ) (s s' : Daemon)
      → AllNew s.f.cur_it s.obs
      → handle_input e c l s ≡ some (go_on s')
      → Moved s s'
  unfolding handle_input
  handle_input-Moved l s s' h eq = elim (Option-cases (after_letter b'L' l)) [
    | inr (keys, y) ↦
        let q : handle_input e c l s ≡ going (do_input e c true keys s) = rw (handle_input, y) in
        do_input-Moved true keys s s' h (going_inj (sym q ∙ eq))
    | inl y ↦ elim (Option-cases (after_letter b'B' l)) [
      | inr (keys, z) ↦
          let q : handle_input e c l s ≡ going (do_input e c false keys s) =
            rw (handle_input, y, z) in
          do_input-Moved false keys s s' h (going_inj (sym q ∙ eq))
      | inl z ↦ elim (Bool-cases (first_is b'S' l)) [
        | inl u ↦
            let q : handle_input e c l s ≡ going (do_select e c (c.atoi (drop 1 l)) s) =
              rw (handle_input, y, z, u) in
            do_select-Moved (c.atoi (drop 1 l)) s s' h (going_inj (sym q ∙ eq))
        | inr u ↦ elim (Bool-cases (str_eqb l (codes "C") && can_reset e)) [
          | inl v ↦
              let q : handle_input e c l s ≡ going (do_reset e s) = rw (handle_input, y, z, u, v) in
              (do_reset-Moved e s s' h (going_inj (sym q ∙ eq))).0
          | inr v ↦
              let q : handle_input e c l s ≡ some (go_on (reply err s)) =
                rw (handle_input, y, z, u, v) in
              subst (Moved s) (next_inj (sym q ∙ eq)) (reply-Moved err s)
        ]
      ]
    ]
  ]

  -- Over any command, the iterators that the engine delivered in it are added to those deleted and the
  -- one in use: none is lost and none is deleted twice. The engine is assumed to have its function for
  -- candidates, and to deliver neither NULL nor the iterator in use.
  pub handle-Moved :
      (raw : List ℕ) (s s' : Daemon)
      → AllNew s.f.cur_it s.obs
      → handle e c raw s ≡ some (go_on s')
      → Moved s s'
  unfolding handle reply
  handle-Moved raw s s' h eq =
      let l = strip (until_nul raw) in
      elim (Bool-cases (is_empty l)) [
        | inl ne ↦
            let q : handle e c raw s ≡ some (go_on s) = rw (handle, ne) in
            subst (Moved s) (next_inj (sym q ∙ eq)) (Moved-same refl refl refl)
        | inr ne ↦ elim (Bool-cases (str_eqb l (codes "Q"))) [
          | inl z ↦
              let q : handle e c raw s ≡ some (quit s) = rw (handle, ne, z) in
              absurd (quit_go_on (some_inj (sym q ∙ eq)))
          | inr z ↦ elim (Bool-cases (str_eqb l (codes "PING"))) [
            | inl y ↦
                let q : handle e c raw s ≡ some (go_on (reply pong s)) = rw (handle, ne, z, y) in
                subst (Moved s) (next_inj (sym q ∙ eq)) (reply-Moved pong s)
            | inr y ↦ elim (Option-cases (after_letter b'X' l)) [
              | inr (name, x) ↦
                  let q : handle e c raw s ≡ some (go_on (do_invoke e name s)) =
                    rw (handle, ne, z, y, x) in
                  subst (Moved s) (next_inj (sym q ∙ eq)) (do_invoke-Moved name s)
              | inl x ↦ elim (Bool-cases (str_eqb l (codes "OPT spans"))) [
                | inl w ↦
                    let t = reply ok (record s { spans = true }) in
                    let q : handle e c raw s ≡ some (go_on t) = rw (handle, ne, z, y, x, w) in
                    subst (Moved s) (next_inj (sym q ∙ eq))
                      (Moved-same {s = s} {t = t} refl refl refl)
                | inr w ↦ elim (Bool-cases (str_eqb l (codes "SAVE"))) [
                  | inl v ↦
                      let q : handle e c raw s ≡ some (go_on (reply ok s)) =
                        rw (handle, ne, z, y, x, w, v) in
                      subst (Moved s) (next_inj (sym q ∙ eq)) (reply-Moved ok s)
                  | inr v ↦
                      let q : handle e c raw s ≡ handle_input e c l s =
                        rw (handle, ne, z, y, x, w, v) in
                      handle_input-Moved l s s' h (sym q ∙ eq)
                ]
              ]
            ]
          ]
        ]
      ]
