-- ===== src/Trace/Accounts.antt =====
-- What the counters of the tracer count.
use wetype_ime_linux.Base.{
  ℕ, zero, suc, ◌+◌, ◌%◌, ◌^◌, ◌≡◌, refl, sym, ap, ◌∙◌, List, [], ◌∷◌, none, some, Bool, true,
  false, ◌==◌, if◌then◌else◌, length, get_elem?, Option-cases, inl, inr, arith,
}
use wetype_ime_linux.Daemon.Kept.{none-some, some_inj}
use wetype_ime_linux.Trace.{Trace, add_word, sub_word, bin_of, bump, count_new, count_del}

-- A block of `n` bytes is made by a call at `pc`, or the `k`-th block alive goes.
pub data Event : Type 0 where
  made : ℕ → ℕ → Event
  gone : ℕ → ℕ → Event

-- The list without its `k`-th entry.
unfoldable pub drop_at : ℕ → List ℕ → List ℕ
drop_at k [] = []
drop_at zero (n ∷ ns) = ns
drop_at (suc k) (n ∷ ns) = n ∷ drop_at k ns

-- The sizes of the blocks alive.
unfoldable pub alive : List Event → List ℕ → List ℕ
alive [] ns = ns
alive (made n pc ∷ es) ns = alive es (n ∷ ns)
alive (gone k pc ∷ es) ns = alive es (drop_at k ns)

-- What is counted meanwhile.
unfoldable pub counted : List Event → List ℕ → Trace → Trace
counted [] ns t = t
counted (made n pc ∷ es) ns t = counted es (n ∷ ns) (count_new n pc t)
counted (gone k pc ∷ es) ns t =
    counted es (drop_at k ns) (elim (get_elem? ns k) [ none ↦ t | some n ↦ count_del n pc t ])

unfoldable pub total : List ℕ → ℕ
total [] = 0
total (n ∷ ns) = n + total ns

-- The blocks of a class.
unfoldable pub of_class : ℕ → List ℕ → ℕ
of_class i [] = 0
of_class i (n ∷ ns) = (if i == bin_of n then 1 else 0) + of_class i ns

-- The counters say what is alive, as far as their words go.
pub record IsBalanced (ns : List ℕ) (t : Trace) : Type 0 where
  pub bytes : t.live_bytes ≡ total ns % 2 ^ 64
  pub objs : t.live_objs ≡ length ns % 2 ^ 64
  pub classes : (i : ℕ) → t.bin_count i ≡ of_class i ns % 2 ^ 64

add_lem : (c a b : ℕ) → c ≡ a % 2 ^ 64 → add_word c b ≡ (b + a) % 2 ^ 64
add_lem c a b h = omega (arith, h)

sub_lem : (c a b d : ℕ) → c ≡ a % 2 ^ 64 → a ≡ b + d → sub_word c b ≡ d % 2 ^ 64
sub_lem c a b d h e = omega (arith, h, e)

total-drop_at :
    (ns : List ℕ) (k n : ℕ) → get_elem? ns k ≡ some n → total ns ≡ n + total (drop_at k ns)
unfolding total drop_at
total-drop_at [] k n h = absurd (none-some h)
total-drop_at (m ∷ ns) zero n h = ap (λ v. v + total ns) (some_inj h)
total-drop_at (m ∷ ns) (suc k) n h = omega (arith, total-drop_at ns k n h)

length-drop_at :
    (ns : List ℕ) (k n : ℕ) → get_elem? ns k ≡ some n → length ns ≡ 1 + length (drop_at k ns)
unfolding drop_at
length-drop_at [] k n h = absurd (none-some h)
length-drop_at (m ∷ ns) zero n h = omega arith
length-drop_at (m ∷ ns) (suc k) n h = omega (arith, length-drop_at ns k n h)

class_drop :
    (i : ℕ) (ns : List ℕ) (k n : ℕ)
    → get_elem? ns k ≡ some n
    → of_class i ns ≡ (if i == bin_of n then 1 else 0) + of_class i (drop_at k ns)
unfolding of_class drop_at
class_drop i [] k n h = absurd (none-some h)
class_drop i (m ∷ ns) zero n h =
    ap (λ v. (if i == bin_of v then 1 else 0) + of_class i ns) (some_inj h)
class_drop i (m ∷ ns) (suc k) n h = omega (arith, class_drop i ns k n h)

none_drop : (ns : List ℕ) (k : ℕ) → get_elem? ns k ≡ none → drop_at k ns ≡ ns
unfolding drop_at
none_drop [] k h = refl
none_drop (m ∷ ns) zero h = absurd (none-some (sym h))
none_drop (m ∷ ns) (suc k) h = ap (λ r. m ∷ r) (none_drop ns k h)

bumped :
    (b : Bool) (c a : ℕ)
    → c ≡ a % 2 ^ 64
    → (if b then add_word c 1 else c) ≡ ((if b then 1 else 0) + a) % 2 ^ 64
bumped true c a h = add_lem c a 1 h
bumped false c a h = omega (arith, h)

unbumped :
    (b : Bool) (c a d : ℕ)
    → c ≡ a % 2 ^ 64
    → a ≡ (if b then 1 else 0) + d
    → (if b then sub_word c 1 else c) ≡ d % 2 ^ 64
unbumped true c a d h e = sub_lem c a 1 d h e
unbumped false c a d h e = omega (arith, h, e)

one_more : (a : ℕ) → (1 + a) % 2 ^ 64 ≡ suc a % 2 ^ 64
one_more a = omega arith

count_new-IsBalanced :
    (n pc : ℕ) (ns : List ℕ) (t : Trace) → IsBalanced ns t → IsBalanced (n ∷ ns) (count_new n pc t)
unfolding count_new total of_class bump
count_new-IsBalanced n pc ns t h = record {
  bytes = add_lem t.live_bytes (total ns) n h.bytes;
  objs = add_lem t.live_objs (length ns) 1 h.objs ∙ one_more (length ns);
  classes = λ i. bumped (i == bin_of n) (t.bin_count i) (of_class i ns) (h.classes i);
}

count_del-IsBalanced :
    (k n pc : ℕ) (ns : List ℕ) (t : Trace)
    → get_elem? ns k ≡ some n
    → IsBalanced ns t
    → IsBalanced (drop_at k ns) (count_del n pc t)
unfolding count_del bump
count_del-IsBalanced k n pc ns t g h = record {
  bytes = sub_lem t.live_bytes (total ns) n _ h.bytes (total-drop_at ns k n g);
  objs = sub_lem t.live_objs (length ns) 1 _ h.objs (length-drop_at ns k n g);
  classes = λ i.
      unbumped (i == bin_of n) (t.bin_count i) (of_class i ns) _ (h.classes i)
        (class_drop i ns k n g);
}

-- Whatever blocks are made and go, in whatever order and from whatever calls, the counters of bytes, of
-- blocks and of each class say what is alive, modulo the word.
pub counted-IsBalanced :
    (es : List Event) (ns : List ℕ) (t : Trace)
    → IsBalanced ns t
    → IsBalanced (alive es ns) (counted es ns t)
unfolding alive counted
counted-IsBalanced [] ns t h = h
counted-IsBalanced (made n pc ∷ es) ns t h =
    counted-IsBalanced es (n ∷ ns) _ (count_new-IsBalanced n pc ns t h)
counted-IsBalanced (gone k pc ∷ es) ns t h = elim (Option-cases (get_elem? ns k)) [
  | inl e ↦ rw (e, none_drop ns k e) (counted-IsBalanced es ns t h)
  | inr (n, e) ↦
      rw e (counted-IsBalanced es (drop_at k ns) _ (count_del-IsBalanced k n pc ns t e h))
]
