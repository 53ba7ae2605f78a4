-- ===== src/Daemon/Sent.antt =====
-- The keys that `run_daemon` of harness/jinterop.c sends, and its note of the letters sent.
use wetype_ime_linux.Base.{
  ℕ, ◌+◌, ◌<◌, ◌≡◌, refl, sym, ap, ◌∙◌, inl, inr, List, [], ◌∷◌, ◌++◌, true, false, ◌&&◌, ltb,
  Bool-cases, length, length-append, arith,
}
use mathlib.Core.List.{append_assoc, append-nil}
use wetype_ime_linux.Daemon.{
  Engine, Daemon, Call, process_input, call, daemon_key, send_key, send_keys, sent_size,
}

-- Each key goes down, then up.
abbrev pub strokes : List ℕ → List Call
strokes [] = []
strokes (k ∷ ks) =
    process_input (b'd' ∷ b' ' ∷ k ∷ []) ∷ process_input (b'u' ∷ b' ' ∷ k ∷ []) ∷ strokes ks

send_key-calls :
    (e : Engine) (k : ℕ) (s : Daemon)
    → (send_key e k s).calls
      ≡ s.calls ++ process_input (b'd' ∷ b' ' ∷ k ∷ []) ∷ process_input (b'u' ∷ b' ' ∷ k ∷ []) ∷ []
unfolding send_key daemon_key call
send_key-calls e k s =
    let j =
      append_assoc s.calls (process_input (b'd' ∷ b' ' ∷ k ∷ []) ∷ [])
        (process_input (b'u' ∷ b' ' ∷ k ∷ []) ∷ []) in
    elim (Bool-cases (s.sent_known && ltb (length s.sent + 1) sent_size)) [
      | inl room ↦ rw room j
      | inr full ↦ rw full j
    ]

send_key-sent :
    (e : Engine) (k : ℕ) (s : Daemon)
    → length s.sent < sent_size
    → (length (send_key e k s).sent < sent_size)
      × (s.sent_known ≡ true
          → length s.sent + 1 < sent_size
          → ((send_key e k s).sent ≡ s.sent ++ k ∷ []) × ((send_key e k s).sent_known ≡ true))
unfolding send_key daemon_key call
send_key-sent e k s h = elim (Bool-cases (s.sent_known && ltb (length s.sent + 1) sent_size)) [
  | inl room ↦
      rw room (ground (arith, room, length-append s.sent (k ∷ [])), λ known f. (refl, known))
  | inr full ↦ rw full (h, λ known f. absurd (ground (arith, full, known, f)))
]

-- Sending a batch calls the engine with each key down and then up, in order. The note of the
-- letters never overflows its buffer; while it is known and they fit, it gains just these letters.
pub send_keys_lem :
    (e : Engine) (ks : List ℕ) (s : Daemon)
    → length s.sent < sent_size
    → let s' = send_keys e false ks s in
      (s'.calls ≡ s.calls ++ strokes ks)
      × (length s'.sent < sent_size)
      × (s.sent_known ≡ true
          → length s.sent + length ks < sent_size
          → (s'.sent ≡ s.sent ++ ks) × (s'.sent_known ≡ true))
unfolding send_keys
send_keys_lem e [] s h = (sym (append-nil s.calls), h, λ k f. (sym (append-nil s.sent), k))
send_keys_lem e (k ∷ ks) s h =
    let t = send_key e k s in
    let (bound, grows) = send_key-sent e k s h in
    let (calls, fits, same) = send_keys_lem e ks t bound in
    (
      calls
          ∙ ap (λ l. l ++ strokes ks) (send_key-calls e k s)
          ∙ append_assoc s.calls _ (strokes ks),
      fits,
      λ known f.
          let (g, known') = grows known (omega (arith, f)) in
          let size = ap length g in
          let (l, known'') = same known' (omega (arith, f, size, length-append s.sent (k ∷ []))) in
          (l ∙ ap (λ x. x ++ ks) g ∙ append_assoc s.sent (k ∷ []) ks, known''),
    )
