-- ===== src/Addon/Pairing.antt =====
-- Which handlers the engine process calls, over any sequence of its steps.
use wetype_ime_linux.Base.{
  ℕ, ◌≤◌, List, [], ◌∷◌, ◌++◌, Bool, false, ◌&&◌, ◌≡◌, refl, map, sym, ap, arith, Bool-cases, inl,
  inr, leb,
}
use mathlib.Core.List.{append_assoc, append-nil}
use wetype_ime_linux.Addon.Proc.{
  Proc, dead, start, stop, send_line, on_line, max_failures, launched,
}

-- The entries of the addon into the process, with what the system calls give.
pub data Event (H : Type 0) : Type 0 where
  on_start : Bool → Event H
  on_send : Bool → List ℕ → H → Event H
  on_reply : List ℕ → Event H
  on_stop : Event H

module _ {H : Type 0} where
  abbrev pub with_line : List ℕ → Proc H × List H → Proc H × List (H × List ℕ)
  with_line l (p, hs) = (p, map (λ h. (h, l)) hs)

  -- One step: the handlers called, each with its line.
  unfoldable pub step : Event H → Proc H → Proc H × List (H × List ℕ)
  step (on_start made) p = ((start made p).1, [])
  step (on_send written l h) p = with_line [] (send_line written l h p)
  step (on_reply l) p = with_line l (on_line l p)
  step on_stop p = with_line [] (stop p)

  unfoldable pub run : List (Event H) → Proc H → Proc H × List (H × List ℕ)
  run [] p = (p, [])
  run (e ∷ es) p = let (p₁, now) = step e p in let (p₂, later) = run es p₁ in (p₂, now ++ later)

  -- The handlers handed to `send`, in order.
  unfoldable pub handed : List (Event H) → List H
  handed [] = []
  handed (on_send written l h ∷ es) = h ∷ handed es
  handed (on_start made ∷ es) = handed es
  handed (on_reply l ∷ es) = handed es
  handed (on_stop ∷ es) = handed es

  unfoldable pub called : List (H × List ℕ) → List H
  called [] = []
  called ((h, l) ∷ cs) = h ∷ called cs

called-append :
    {H : Type 0} (xs ys : List (H × List ℕ)) → called (xs ++ ys) ≡ called xs ++ called ys
unfolding called
called-append [] ys = refl
called-append ((h, l) ∷ xs) ys = ap (λ r. h ∷ r) (called-append xs ys)

called-with : {H : Type 0} (l : List ℕ) (hs : List H) → called (map (λ h. (h, l)) hs) ≡ hs
unfolding called
called-with l [] = refl
called-with l (h ∷ hs) = ap (λ r. h ∷ r) (called-with l hs)

-- A process that cannot be written to has no handler waiting.
unfoldable pub IsIdle : {H : Type 0} → Proc H → Type 0
IsIdle p = (p.alive && p.in_open) ≡ false → p.pending ≡ []

pub step-IsIdle : {H : Type 0} (e : Event H) (p : Proc H) → IsIdle p → IsIdle (step e p).0
unfolding step start launched stop send_line on_line IsIdle
step-IsIdle e p i = ground arith

on_line-order :
    {H : Type 0} (l : List ℕ) (p : Proc H) → (on_line l p).1 ++ (on_line l p).0.pending ≡ p.pending
unfolding on_line
on_line-order l p = ground arith

-- One step calls handlers from the front of the queue, in the order of `send`.
step_pairs :
    {H : Type 0} (e : Event H) (p : Proc H)
    → IsIdle p
    → called (step e p).1 ++ (step e p).0.pending ≡ p.pending ++ handed (e ∷ [])
unfolding step handed called start launched stop send_line on_line IsIdle
step_pairs (on_start made) p i = elim (Bool-cases p.alive) [
  | inl a ↦ rw (a, append-nil p.pending) refl
  | inr d ↦ elim (Bool-cases (leb max_failures p.fail_count)) [
    | inl f ↦ rw (d, f, append-nil p.pending) refl
    | inr g ↦ elim (Bool-cases made) [
      | inl m ↦ rw (d, g, m, append-nil p.pending) refl
      | inr m ↦ rw (d, g, m, append-nil p.pending) refl
    ]
  ]
]
step_pairs (on_send written l h) p i = elim (Bool-cases (p.alive && p.in_open)) [
  | inr c ↦ rw (c, i c) refl
  | inl o ↦ elim (Bool-cases written) [
    | inl w ↦ rw (o, w) refl
    | inr w ↦ rw (o, w, called-with [] (p.pending ++ h ∷ []), append-nil (p.pending ++ h ∷ [])) refl
  ]
]
step_pairs (on_reply l) p i =
    rw (called-with l (on_line l p).1, on_line-order l p, append-nil p.pending) refl
step_pairs on_stop p i = rw (called-with [] p.pending, append-nil p.pending) refl

handed-cons :
    {H : Type 0} (e : Event H) (es : List (Event H))
    → handed (e ∷ []) ++ handed es ≡ handed (e ∷ es)
unfolding handed
handed-cons (on_start made) es = refl
handed-cons (on_send written l h) es = refl
handed-cons (on_reply l) es = refl
handed-cons on_stop es = refl

-- Every handler handed to `send` is called at most once, in the order of the sends: those called,
-- then those still waiting, are those that waited at first and then those handed over since,
-- whatever the engine answers and whenever it dies, is stopped or is started again.
pub run_pairs :
    {H : Type 0} (es : List (Event H)) (p : Proc H)
    → IsIdle p
    → called (run es p).1 ++ (run es p).0.pending ≡ p.pending ++ handed es
unfolding run handed called
run_pairs [] p i = sym (append-nil p.pending)
run_pairs (e ∷ es) p i =
    let p₁ = (step e p).0 in
    rw
      (
        called-append (step e p).1 (run es p₁).1,
        append_assoc (called (step e p).1) (called (run es p₁).1) (run es p₁).0.pending,
        run_pairs es p₁ (step-IsIdle e p i),
        sym (append_assoc (called (step e p).1) p₁.pending (handed es)),
        step_pairs e p i,
        append_assoc p.pending (handed (e ∷ [])) (handed es),
        handed-cons e es,
      )
      refl

-- A dead process that has used up its starts.
pub record IsSpent {H : Type 0} (p : Proc H) : Type 0 where
  pub is_dead : p.alive ≡ false
  pub is_closed : p.stage ≡ dead
  pub tired : max_failures ≤ p.fail_count
  pub idle : p.pending ≡ []

unfoldable pub fail_each : {H : Type 0} → List H → List (H × List ℕ)
fail_each hs = map (λ h. (h, [])) hs
