-- ===== src/Trace/Arena.antt =====
-- The size classes and the arena of the tracer.
use wetype_ime_linux.Base.{
  ℕ, zero, suc, ◌+◌, ◌-◌, ◌*◌, ◌/◌, ◌%◌, ◌^◌, ◌≤◌, ◌<◌, ◌≡◌, ◌≢◌, ◌⊎◌, refl, sym, ap, subst, ◌∙◌,
  true, false, ◌&&◌, ltb, if_true, if_false, inl, inr, Bool-cases, arith,
}
use native.Mathlib.Nat.{mul-mod_left}
use wetype_ime_linux.Trace.{bin_from, bin_of, boot_alloc, boot_size, round_up, add_word, Trace}

-- The class is one of the twelve, it holds the size unless it is the last, and none before it does.
pub record IsClass (n b : ℕ) : Type 0 where
  pub small : b < 12
  pub holds : (n ≤ 16 * 2 ^ b) ⊎ (b ≡ 11)
  pub first : (b ≡ 0) ⊎ (16 * 2 ^ (b - 1) < n)

last_class :
    (b n : ℕ)
    → b < 12
    → (ltb (b + 1) 12 && ltb (16 * 2 ^ b) n) ≡ false
    → (n ≤ 16 * 2 ^ b) ⊎ (b ≡ 11)
last_class b n h e = ground (arith, h, e)

goes_on :
    (b n : ℕ) → (ltb (b + 1) 12 && ltb (16 * 2 ^ b) n) ≡ true → (b + 1 < 12) × (16 * 2 ^ b < n)
goes_on b n e = ground (arith, e)

back_one : (b : ℕ) → b + 1 - 1 ≡ b
back_one b = omega arith

bin_from-IsClass :
    (fuel b n : ℕ)
    → 12 ≤ fuel + b
    → b < 12
    → (b ≡ 0) ⊎ (16 * 2 ^ (b - 1) < n)
    → IsClass n (bin_from fuel b n)
unfolding bin_from
bin_from-IsClass zero b n f h p = absurd (no_fuel b f h)
  where
    no_fuel : (b : ℕ) → 12 ≤ 0 + b → b < 12 → ⊥
    no_fuel b f h = omega (arith, f, h)
bin_from-IsClass (suc fuel) b n f h p = elim (Bool-cases (ltb (b + 1) 12 && ltb (16 * 2 ^ b) n)) [
  | inl e ↦
      let (room, more) = goes_on b n e in
      rw e (
        bin_from-IsClass fuel (b + 1) n (omega (arith, f)) room
          (inr (subst (λ k. 16 * 2 ^ k < n) (sym (back_one b)) more)))
  | inr e ↦ rw e (record { small = h; holds = last_class b n h e; first = p })
]

-- Every size has one of the twelve classes: the first that holds it, or the last.
pub bin_of-IsClass : (n : ℕ) → IsClass n (bin_of n)
unfolding bin_of
bin_of-IsClass n = bin_from-IsClass 12 0 n (omega arith) (omega arith) (inl refl)

-- What a block of the arena is.
pub record IsPlaced (n p : ℕ) (t t' : Trace) : Type 0 where
  pub aligned : (p - t.boot) % 16 ≡ 0
  pub after : t.boot + t.boot_used ≤ p
  pub inside : p + n ≤ t.boot + t'.boot_used
  pub within : t'.boot_used ≤ boot_size

whole : (a : ℕ) → a < 2 ^ 64 → a % 2 ^ 64 ≡ a
whole a h = omega arith

rounded : (a : ℕ) → (a ≤ (a + 15) / 16 * 16) × ((a + 15) / 16 * 16 ≤ a + 15)
rounded a = omega arith

-- The multiple of 16 from `x` on, when nothing wraps.
round_up_lem :
    (x : ℕ)
    → x ≤ 2 ^ 63
    → (x ≤ round_up x 16) × ((round_up x 16 ≤ x + 15) × (round_up x 16 % 16 ≡ 0))
round_up_lem x h =
    let same : add_word x 15 ≡ x + 15 = whole (x + 15) (omega (arith, h)) in
    rw same ((rounded x).0, ((rounded x).1, mul-mod_left ((x + 15) / 16) 16))

within_size : (a : ℕ) → ltb boot_size a ≡ false → a ≤ boot_size
within_size a h = ground (arith, h)

past_base : (b o : ℕ) → b + o - b ≡ o
past_base b o = omega arith

-- A block of the arena begins at a multiple of 16 of it, after the blocks given before, and ends
-- within it, for any size up to 2^63.
pub boot_alloc-IsPlaced :
    (n : ℕ) (t : Trace)
    → t.boot_used ≤ boot_size
    → n ≤ 2 ^ 63
    → let (p, t') = boot_alloc n t in p ≢ 0 → IsPlaced n p t t'
unfolding boot_alloc
boot_alloc-IsPlaced n t u k =
    let off = round_up t.boot_used 16 in
    let m = round_up n 16 in
    let o = round_up_lem t.boot_used (omega (arith, u)) in
    let r = round_up_lem n k in
    let s : add_word off m ≡ off + m = whole (off + m) (omega (arith, o, r, u, k)) in
    let P : ℕ × Trace → Type 0 = λ q. q.0 ≢ 0 → IsPlaced n q.0 t q.1 in
    elim (Bool-cases (ltb boot_size (add_word off m))) [
      | inl full ↦ if_true P (ltb boot_size (add_word off m)) _ _ full (λ z. absurd (z refl))
      | inr fits ↦ if_false P (ltb boot_size (add_word off m)) _ _ fits (λ z. record {
        aligned = ap (λ d. d % 16) (past_base t.boot off) ∙ o.1.1;
        after = omega (arith, o);
        inside = omega (arith, s, r);
        within = within_size (add_word off m) fits;
      })
    ]
