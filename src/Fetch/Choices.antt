-- ===== src/Fetch/Choices.antt =====
-- The candidate cache that `daemon_fetch_cands` of harness/jinterop.c fills: which candidates of the
-- engine's pages it holds, and within which bounds.
use wetype_ime_linux.Base.{
  ℕ, zero, suc, ◌≤◌, ◌≡◌, refl, sym, ap, ap₂, ◌∙◌, List, [], ◌∷◌, ◌++◌, Option, none, some, true,
  ltb, if◌then◌else◌, Bool-cases, inl, inr, length, take, length-append, length-take,
  take-append_le, take-eq_self, arith,
}
use mathlib.Core.List.{append_assoc, append-nil}
use wetype_ime_linux.Memory.{Mem as Memory}
use wetype_ime_linux.Objects.{obj_get, cand_text}
use wetype_ime_linux.Wait.{is_empty}
use wetype_ime_linux.Fetch.{
  Choice, elems, text_of, c_str, id_of, id_bytes, cover_of, copy_id, add_choice, add_choices,
  add_pages,
}

-- A candidate as it is to be cached.
abbrev pub choice_of : ℕ → Memory → Choice
choice_of c m = record {
  text = take 255 (text_of c m);
  id = id_bytes (id_of c m) m;
  cover = cover_of c m;
}

-- The candidates with a text, in order.
unfoldable pub offered : List ℕ → Memory → List Choice
offered [] m = []
offered (c ∷ cs) m = if is_empty (text_of c m) then offered cs m else choice_of c m ∷ offered cs m

-- The elements of all pages, in order.
abbrev pub all_elems : List ℕ → Memory → List ℕ
all_elems [] m = []
all_elems (a ∷ as') m = elems a m ++ all_elems as' m

choice_of-cell : (c : ℕ) (m : Memory) (k : ℕ) → choice_of c (record m { next = k }) ≡ choice_of c m
unfolding text_of c_str cand_text obj_get id_of id_bytes cover_of
choice_of-cell c m k = refl

offered-next :
    (cs : List ℕ) (m : Memory) (k : ℕ) → offered cs (record m { next = k }) ≡ offered cs m
unfolding offered text_of c_str cand_text obj_get id_of id_bytes cover_of
offered-next [] m k = refl
offered-next (c ∷ cs) m k = rw (offered-next cs m k)

elems-next : (a : ℕ) (m : Memory) (k : ℕ) → elems a (record m { next = k }) ≡ elems a m
unfolding elems
elems-next a m k = refl

all_elems-next :
    (as' : List ℕ) (m : Memory) (k : ℕ) → all_elems as' (record m { next = k }) ≡ all_elems as' m
all_elems-next [] m k = refl
all_elems-next (a ∷ as') m k = ap₂ ◌++◌ (elems-next a m k) (all_elems-next as' m k)

offered-append : (xs ys : List ℕ) (m : Memory) → offered (xs ++ ys) m ≡ offered xs m ++ offered ys m
unfolding offered
offered-append [] ys m = refl
offered-append (x ∷ xs) ys m = elim (Bool-cases (is_empty (text_of x m))) [
  | inl e ↦ rw e (offered-append xs ys m)
  | inr e ↦ rw e (ap (◌∷◌ (choice_of x m)) (offered-append xs ys m))
]

-- `malloc` grants every request.
abbrev pub Grants : Memory → Type 0
Grants m = (a : ℕ) → m.grants a ≡ true

-- What was cached, and a heap that only took the addresses of the copies.
record Cached (m : Memory) (cs : List Choice) (o : List Choice × Memory) : Type 0 where
  next : ℕ
  same : o ≡ (cs, record m { next = next })

pair : (m : Memory) {xs ys : List Choice} → xs ≡ ys → ◌≡◌ {A = List Choice × Memory} (xs, m) (ys, m)
pair m e = ap (λ l. (l, m)) e

copy_id_lem :
    (o : Option (List ℕ)) (m : Memory)
    → Grants m
    → (k : ℕ) × (copy_id o m ≡ (o, record m { next = k }))
unfolding copy_id
copy_id_lem none m g = (m.next, refl)
copy_id_lem (some bs) m g = (suc m.next, rw (g m.next))

add_choice_lem :
    (c : ℕ) (xs : List Choice) (m : Memory)
    → Grants m
    → Cached m (xs ++ offered (c ∷ []) m) (add_choice c (xs, m))
unfolding add_choice offered
add_choice_lem c xs m g = elim (Bool-cases (is_empty (text_of c m))) [
  | inl e ↦ rw e (record { next = m.next; same = pair m (sym (append-nil xs)) })
  | inr e ↦
      let (k, eq) = copy_id_lem (id_bytes (id_of c m) m) m g in
      rw (e, eq) (record { next = k; same = refl })
]

take-append_take :
    {A : Type 0} (n : ℕ) (xs ys : List A) → take n (take n xs ++ ys) ≡ take n (xs ++ ys)
take-append_take zero xs ys = refl
take-append_take (suc n) [] ys = refl
take-append_take (suc n) (x ∷ xs) ys = ap (◌∷◌ x) (take-append_take n xs ys)

length-offered_one : (c : ℕ) (m : Memory) → length (offered (c ∷ []) m) ≤ 1
unfolding offered
length-offered_one c m = ground arith

-- One candidate cached, then the rest: all of them offered.
offered_step :
    (c : ℕ) (cs : List ℕ) (xs : List Choice) (m : Memory) (k : ℕ)
    → (xs ++ offered (c ∷ []) m) ++ offered cs (record m { next = k }) ≡ xs ++ offered (c ∷ cs) m
offered_step c cs xs m k =
    append_assoc xs (offered (c ∷ []) m) _
    ∙ ap (λ l. xs ++ (offered (c ∷ []) m ++ l)) (offered-next cs m k)
    ∙ ap (◌++◌ xs) (sym (offered-append (c ∷ []) cs m))

add_choices_lem :
    (limit : ℕ) (cs : List ℕ) (xs : List Choice) (m : Memory)
    → Grants m
    → length xs ≤ limit
    → Cached m (take limit (xs ++ offered cs m)) (add_choices limit cs (xs, m))
unfolding add_choices offered
add_choices_lem limit [] xs m g h = record {
  next = m.next;
  same = pair m (sym (ap (take limit) (append-nil xs) ∙ take-eq_self limit xs h));
}
add_choices_lem limit (c ∷ cs) xs m g h = elim (Bool-cases (ltb (length xs) limit)) [
  | inl room ↦
      let one = add_choice_lem c xs m g in
      let size : length (xs ++ offered (c ∷ []) m) ≤ limit =
        ground (arith, room, length-append xs (offered (c ∷ []) m), length-offered_one c m) in
      let i =
        add_choices_lem limit cs (xs ++ offered (c ∷ []) m) (record m { next = one.next }) g size in
      rw (room, one.same)
        (record {
          next = i.next;
          same =
              i.same
              ∙ ap (λ l. (take limit l, record m { next = i.next }))
                  (offered_step c cs xs m one.next);
        })
  | inr full ↦ rw full (record {
    next = m.next;
    same = pair m (
        sym (
          take-append_le limit xs (offered (c ∷ cs) m) (ground (arith, full))
          ∙ take-eq_self limit xs h));
  })
]

-- With memory for the copies of the ids, the cache holds the first candidates with a text, up to the
-- limit, of all the pages in the engine's order, each with its text cut to its buffer, its id and
-- the number of letters that it covers.
pub add_pages_lem :
    (limit : ℕ) (as' : List ℕ) (xs : List Choice) (m : Memory)
    → Grants m
    → length xs ≤ limit
    → (add_pages limit as' (xs, m)).0 ≡ take limit (xs ++ offered (all_elems as' m) m)
unfolding add_pages offered
add_pages_lem limit [] xs m g h = sym (ap (take limit) (append-nil xs) ∙ take-eq_self limit xs h)
add_pages_lem limit (a ∷ as') xs m g h =
    let one = add_choices_lem limit (elems a m) xs m g h in
    let m' = record m { next = one.next } in
    let size : length (take limit (xs ++ offered (elems a m) m)) ≤ limit =
      omega (arith, length-take limit (xs ++ offered (elems a m) m)) in
    let more = offered (all_elems as' m) m in
    rw (add_pages, one.same)
      (add_pages_lem limit as' (take limit (xs ++ offered (elems a m) m)) m' g size
        ∙ ap (λ l. take limit (take limit (xs ++ offered (elems a m) m) ++ l))
            (ap (λ l. offered l m') (all_elems-next as' m one.next)
              ∙ offered-next (all_elems as' m) m one.next)
        ∙ take-append_take limit (xs ++ offered (elems a m) m) more
        ∙ ap (take limit) (
            append_assoc xs (offered (elems a m) m) more
            ∙ ap (◌++◌ xs) (sym (offered-append (elems a m) (all_elems as' m) m))))
