-- ===== src/Events/Batch.antt =====
-- One batch of candidates as the engine of harness/jinterop.c delivers it: the matches of the
-- pending inputs, then the end of that array, the new iterator, and the batch event.
use wetype_ime_linux.Base.{
  ℕ, ◌+◌, ◌-◌, ◌<◌, ◌≡◌, ◌≢◌, refl, sym, ap, ◌∙◌, List, [], ◌∷◌, ◌++◌, none, some, true, ltb,
  length, take-eq_self, eq-nil_of_length, ==_of_ne, str_eqb, filter, length-append, arith,
  Bool-cases, inl, inr, codes,
}
use mathlib.Core.List.{append-nil, append_assoc}
use wetype_ime_linux.Events.{
  Cand, Action, set_object, new_iterator, call_static, act, run, is_letter, append_letters,
  make_room, text_size, add_match, end_pending, pending_input_field, set_new_iterator,
  probe_listener, call_static_void,
}

-- The letters of the matches, in order.
abbrev pub letters : List (List ℕ) → List ℕ
letters [] = []
letters (m ∷ ms) = filter is_letter m ++ letters ms

-- What the engine does to deliver the candidates of the input that the matches spell.
abbrev pub batch : List (List ℕ) → ℕ → List Action
batch [] v =
    set_object (codes "pendingInputs") none
    ∷ new_iterator v
    ∷ call_static (codes "onBatchEvent")
    ∷ []
batch (m ∷ ms) v = set_object (codes "match") (some m) ∷ batch ms v

append_letters_lem :
    (acc cs : List ℕ)
    → length acc + length (filter is_letter cs) < text_size
    → append_letters acc cs ≡ acc ++ filter is_letter cs
unfolding append_letters
append_letters_lem acc [] h = sym (append-nil acc)
append_letters_lem acc (c ∷ cs) h = elim (Bool-cases (ltb (length acc + 1) text_size)) [
  | inl room ↦ ground (
    arith,
    append_letters_lem (acc ++ c ∷ []) cs,
    append_letters_lem acc cs,
    length-append acc (c ∷ []),
    append_assoc acc (c ∷ []) (filter is_letter cs),
  )
  | inr full ↦
      let none_left = eq-nil_of_length (filter is_letter (c ∷ cs)) (ground arith) in
      rw (full, none_left) (sym (append-nil acc))
]

-- A batch whose letters fit the buffer queues one event, with its iterator and exactly those
-- letters as its known input, behind the events not yet taken (the oldest gives way when the queue
-- is full), and leaves nothing pending.
pub run-batch :
    (ms : List (List ℕ)) (v : ℕ) (s : Cand)
    → v ≢ 0
    → length s.pi_acc + length (letters ms) < text_size
    → let s' = run (batch ms v) s in
      (s'.q ≡ make_room s.q ++ record { it = v; known = true; input = s.pi_acc ++ letters ms } ∷ [])
      × (s'.pend_it ≡ 0)
      × (s'.pi_acc ≡ [])
      × (s'.last_iterator ≡ v)
unfolding run act pending_input_field add_match end_pending set_new_iterator call_static_void
    probe_listener str_eqb
run-batch [] v s nz h =
    rw (==_of_ne v 0 nz, ==_of_ne v 0 nz)
      (
        ap (λ l. make_room s.q ++ record { it = v; known = true; input = l } ∷ [])
            (take-eq_self (text_size - 1) s.pi_acc (omega arith) ∙ sym (append-nil s.pi_acc)),
        refl,
        refl,
        refl,
      )
run-batch (m ∷ ms) v s nz h =
    let whole =
      append_letters_lem s.pi_acc m
        (omega (arith, length-append (filter is_letter m) (letters ms))) in
    let s₁ = add_match (some m) s in
    let ih = run-batch ms v s₁ nz (
      omega (
        arith,
        ap length whole,
        length-append s.pi_acc (filter is_letter m),
        length-append (filter is_letter m) (letters ms),
      )) in
    (
      ih.0
          ∙ ap (λ l. make_room s.q ++ record { it = v; known = true; input = l } ∷ [])
              (ap (λ l. l ++ letters ms) whole
                ∙ append_assoc s.pi_acc (filter is_letter m) (letters ms)),
      ih.1,
      ih.2,
      ih.3,
    )
