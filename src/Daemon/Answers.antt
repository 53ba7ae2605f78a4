-- ===== src/Daemon/Answers.antt =====
-- Every command line that `run_daemon` (harness/jinterop.c) reads is answered.
use wetype_ime_linux.Base.{
  ℕ, ◌≡◌, refl, sym, ap, subst, ◌∙◌, inl, inr, List, [], ◌∷◌, Option, none, some, Bool, true, false,
  ◌&&◌, ◌==◌, Bool-cases, Option-cases, str_eqb, str_eqb→eq, codes, drop, arith,
}
use wetype_ime_linux.Wait.{is_empty}
use wetype_ime_linux.Command.{In}
use wetype_ime_linux.Fetch.{until_nul}
use wetype_ime_linux.Daemon.{Reply, pong, ok, err, Engine, Settings, Daemon, can_reset, reply}
use wetype_ime_linux.Daemon.Kept.{none-some, some_inj}
use wetype_ime_linux.Daemon.Commands.{
  go_on, quit, going, strip, after_letter, first_is, do_invoke, gather, do_keys, do_input,
  do_select, do_reset, handle_input, handle,
}
use wetype_ime_linux.Daemon.Replies.{
  is_skip, Answered, next_inj, quit_go_on, answer_now, now, taken_of, do_invoke-Answered,
  do_keys-Answered, do_reset-Answered, do_select-Answered,
}

-- The batches that a line takes in with it, and the input after them.
abbrev pub taken_in : List ℕ → In → ℕ × In
taken_in l i = elim (after_letter b'B' l) [
  | none ↦ (0, i)
  | some keys ↦ taken_of i (gather false keys i)
]

do_input-Answered :
    (e : Engine) (c : Settings) (single : Bool) (keys : List ℕ) (s s' : Daemon)
    → do_input e c single keys s ≡ some s'
    → Answered (taken_of s.input (gather single keys s.input)) s s'
unfolding do_input
do_input-Answered e c single keys s s' h = elim (Option-cases (gather single keys s.input)) [
  | inl n ↦
      let q : do_input e c single keys s ≡ none = rw (do_input, n) in absurd (none-some (sym q ∙ h))
  | inr (b, y) ↦
      let q : do_input e c single keys s ≡ do_keys e c single b (record s { input = b.input }) =
        rw (do_input, y) in
      let a = do_keys-Answered e c single b (record s { input = b.input }) s' (sym q ∙ h) in
      rw y (record { last = a.last; is_last = a.is_last; out = a.out; input = a.input })
]

pub going_inj : {o : Option Daemon} {s : Daemon} → going o ≡ some (go_on s) → o ≡ some s
going_inj {o = none} h = cc
going_inj {o = some t} h = ap some (next_inj h)

-- A line that is not a letter and a space takes no batch in.
pub after_letter-ne :
    (x y : ℕ) (l : List ℕ) {rest : List ℕ}
    → (y == x) ≡ false
    → after_letter x l ≡ some rest
    → after_letter y l ≡ none
unfolding after_letter
after_letter-ne x y [] ne h = refl
after_letter-ne x y (a ∷ []) ne h = refl
after_letter-ne x y (a ∷ b ∷ cs) ne h = ground (arith, ne, h)

handle_input-Answered :
    (e : Engine) (c : Settings) (l : List ℕ) (s s' : Daemon)
    → handle_input e c l s ≡ some (go_on s')
    → Answered (taken_in l s.input) s s'
unfolding handle_input gather
handle_input-Answered e c l s s' h = elim (Option-cases (after_letter b'L' l)) [
  | inr (keys, y) ↦
      let q : handle_input e c l s ≡ going (do_input e c true keys s) = rw (handle_input, y) in
      let z = after_letter-ne b'L' b'B' l refl y in
      rw (taken_in, z) (do_input-Answered e c true keys s s' (going_inj (sym q ∙ h)))
  | inl y ↦ elim (Option-cases (after_letter b'B' l)) [
    | inr (keys, z) ↦
        let q : handle_input e c l s ≡ going (do_input e c false keys s) =
          rw (handle_input, y, z) in
        rw (taken_in, z) (do_input-Answered e c false keys s s' (going_inj (sym q ∙ h)))
    | inl z ↦
        rw (taken_in, z)
          (elim (Bool-cases (first_is b'S' l)) [
            | inl u ↦
                let q : handle_input e c l s ≡ going (do_select e c (c.atoi (drop 1 l)) s) =
                  rw (handle_input, y, z, u) in
                do_select-Answered e c (c.atoi (drop 1 l)) s s' (going_inj (sym q ∙ h))
            | inr u ↦ elim (Bool-cases (str_eqb l (codes "C") && can_reset e)) [
              | inl v ↦
                  let q : handle_input e c l s ≡ going (do_reset e s) =
                    rw (handle_input, y, z, u, v) in
                  do_reset-Answered e s s' (going_inj (sym q ∙ h))
              | inr v ↦
                  let q : handle_input e c l s ≡ some (go_on (reply err s)) =
                    rw (handle_input, y, z, u, v) in
                  now err refl (sym q ∙ h)
            ]
          ])
  ]
]

-- What a line without the letter and space of a batch takes in.
taken_in-eq : {l m : List ℕ} (i : In) → l ≡ m → taken_in m i ≡ (0, i) → (0, i) ≡ taken_in l i
taken_in-eq i e z = sym (ap (λ k. taken_in k i) e ∙ z)

fixed-Answered :
    (m : List ℕ) (l : List ℕ) (r : Reply) (s t s' : Daemon)
    → str_eqb l m ≡ true
    → taken_in m s.input ≡ (0, s.input)
    → is_skip r ≡ false
    → t.out ≡ s.out
    → t.input ≡ s.input
    → some (go_on (reply r t)) ≡ some (go_on s')
    → Answered (taken_in l s.input) s s'
fixed-Answered m l r s t s' q z f o i h =
    subst (λ k. Answered k s s') (taken_in-eq s.input (str_eqb→eq l m q) z)
      (subst (Answered (0, s.input) s) (next_inj h) (answer_now r s t f o i))

-- Each command line that does not end the daemon, unless it is empty, is answered by one line that is
-- no `SKIP`, after one `SKIP` for each further batch that was read together with it.
pub handle-Answered :
    (e : Engine) (c : Settings) (raw : List ℕ) (s s' : Daemon)
    → is_empty (strip (until_nul raw)) ≡ false
    → handle e c raw s ≡ some (go_on s')
    → Answered (taken_in (strip (until_nul raw)) s.input) s s'
unfolding handle after_letter
handle-Answered e c raw s s' ne h =
    let l = strip (until_nul raw) in
    elim (Bool-cases (str_eqb l (codes "Q"))) [
      | inl z ↦
          let q : handle e c raw s ≡ some (quit s) = rw (handle, ne, z) in
          absurd (quit_go_on (some_inj (sym q ∙ h)))
      | inr z ↦ elim (Bool-cases (str_eqb l (codes "PING"))) [
        | inl y ↦
            let q : handle e c raw s ≡ some (go_on (reply pong s)) = rw (handle, ne, z, y) in
            fixed-Answered (codes "PING") l pong s s s' y refl refl refl refl (sym q ∙ h)
        | inr y ↦ elim (Option-cases (after_letter b'X' l)) [
          | inr (name, x) ↦
              let q : handle e c raw s ≡ some (go_on (do_invoke e name s)) =
                rw (handle, ne, z, y, x) in
              let b = after_letter-ne b'X' b'B' l refl x in
              rw (taken_in, b)
                (subst (Answered (0, s.input) s) (next_inj (sym q ∙ h))
                  (do_invoke-Answered e name s))
          | inl x ↦ elim (Bool-cases (str_eqb l (codes "OPT spans"))) [
            | inl w ↦
                let t = record s { spans = true } in
                let q : handle e c raw s ≡ some (go_on (reply ok t)) =
                  rw (handle, ne, z, y, x, w) in
                fixed-Answered (codes "OPT spans") l ok s t s' w refl refl refl refl (sym q ∙ h)
            | inr w ↦ elim (Bool-cases (str_eqb l (codes "SAVE"))) [
              | inl v ↦
                  let q : handle e c raw s ≡ some (go_on (reply ok s)) =
                    rw (handle, ne, z, y, x, w, v) in
                  fixed-Answered (codes "SAVE") l ok s s s' v refl refl refl refl (sym q ∙ h)
              | inr v ↦
                  let q : handle e c raw s ≡ handle_input e c l s =
                    rw (handle, ne, z, y, x, w, v) in
                  handle_input-Answered e c l s s' (sym q ∙ h)
            ]
          ]
        ]
      ]
    ]
