-- ===== src/Access/Arrays.antt =====
-- The arrays of the fake JNI environment of harness/jinterop.c: what is written reads back, and
-- nothing outside an array is written.
use wetype_ime_linux.Base.{
  ℕ, zero, suc, ◌+◌, ◌-◌, ◌≤◌, ◌<◌, ◌^◌, true, ◌≡◌, ◌≢◌, refl, sym, ap, ◌∙◌, inl, inr, List, [],
  ◌∷◌, ◌++◌, none, some, Bool, false, not, ◌&&◌, ◌==◌, ltb, leb, if◌then◌else◌, Bool-cases, length,
  get_elem?, set, take, drop, length-append, length-take, length-drop, length-set, subst, ==_refl,
  ==_of_ne, arith,
}
use wetype_ime_linux.Base.Int.{ℤ, pos, negsuc}
use wetype_ime_linux.Memory.{Mem, arr, bytes, raw, JArr, JBytes, store}
use wetype_ime_linux.Access.{
  slot_of, set_object_array_element, get_object_array_element, splice, set_byte_array_region,
}

get_elem?-set :
    (xs : List ℕ) (i j v : ℕ)
    → get_elem? (set xs i v) j ≡ (if (i == j) && ltb i (length xs) then some v else get_elem? xs j)
get_elem?-set [] i j v = ground arith
get_elem?-set (x ∷ xs) zero zero v = ground arith
get_elem?-set (x ∷ xs) zero (suc j) v = ground arith
get_elem?-set (x ∷ xs) (suc i) zero v = ground arith
get_elem?-set (x ∷ xs) (suc i) (suc j) v = ground (arith, get_elem?-set xs i j v)

-- The object array at `p`, whose table of pointers is `ws`.
pub record IsArray (p : ℕ) (a : JArr) (ws : List ℕ) (m : Mem) : Type 0 where
  pub real : p ≢ 0
  pub here : m.cell p ≡ some (arr a)
  pub table : m.cell a.elem ≡ some (raw ws)
  pub size : a.len ≤ length ws
  pub apart : a.elem ≢ p

-- Whether the index is one of the array's.
abbrev pub in_array : ℤ → JArr → Bool
in_array (pos i) a = ltb i a.len
in_array (negsuc i) a = false

abbrev pub same_index : ℤ → ℤ → Bool
same_index (pos i) (pos j) = i == j
same_index (negsuc i) (negsuc j) = i == j
same_index i j = false

slot_of_lem :
    (p : ℕ) (a : JArr) (ws : List ℕ) (m : Mem)
    → IsArray p a ws m
    → (i : ℕ) → slot_of p (pos i) m ≡ (if ltb i a.len then some (a, i) else none)
unfolding slot_of
slot_of_lem p a ws m v i = rw (==_of_ne p 0 v.real, v.here) refl

get_lem :
    (p : ℕ) (a : JArr) (ws : List ℕ) (m : Mem)
    → IsArray p a ws m
    → (i : ℕ)
    → get_object_array_element p (pos i) m
      ≡ (if ltb i a.len then (elim (get_elem? ws i) [ some v ↦ v | none ↦ 0 ]) else 0)
unfolding get_object_array_element
get_lem p a ws m v i = ground (arith, slot_of_lem p a ws m v i, v.table)

-- The words of the table after a write.
abbrev pub written : JArr → ℤ → ℕ → List ℕ → List ℕ
written a (pos i) v ws = if ltb i a.len then set ws i v else ws
written a (negsuc i) v ws = ws

set-IsArray :
    (p : ℕ) (a : JArr) (ws : List ℕ) (m : Mem)
    → IsArray p a ws m
    → (i : ℤ) (v : ℕ) → IsArray p a (written a i v ws) (set_object_array_element p i v m)
unfolding set_object_array_element store slot_of
set-IsArray p a ws m h (negsuc i) v = h
set-IsArray p a ws m h (pos i) v = elim (Bool-cases (ltb i a.len)) [
  | inr e ↦
      let same : set_object_array_element p (pos i) v m ≡ m =
        rw (set_object_array_element, slot_of_lem p a ws m h i, e) refl in
      rw e (subst (IsArray p a ws) (sym same) h)
  | inl e ↦
      let now : set_object_array_element p (pos i) v m ≡ store a.elem (raw (set ws i v)) m =
        rw (set_object_array_element, slot_of_lem p a ws m h i, e, h.table) refl in
      rw e (subst (IsArray p a (set ws i v)) (sym now) (store-IsArray i v))
]
  where
    store-IsArray : (i v : ℕ) → IsArray p a (set ws i v) (store a.elem (raw (set ws i v)) m)
    store-IsArray i v = record {
      real = h.real;
      here = rw (store, h.table, ==_of_ne a.elem p h.apart) h.here;
      table = rw (store, h.table, ==_refl a.elem) refl;
      size = omega (arith, h.size, length-set ws i v);
      apart = h.apart;
    }

-- An element that is set reads back as set, and any other as before; an index outside the array
-- sets nothing and reads as NULL.
pub get-set_object_array_element :
    (p : ℕ) (a : JArr) (ws : List ℕ) (m : Mem)
    → IsArray p a ws m
    → (i j : ℤ) (v : ℕ)
    → get_object_array_element p j (set_object_array_element p i v m)
      ≡ (if in_array j a then (if same_index i j then v else get_object_array_element p j m) else 0)
unfolding get_object_array_element slot_of
get-set_object_array_element p a ws m h i (negsuc j) v = refl
get-set_object_array_element p a ws m h i (pos j) v =
    get_lem p a (written a i v ws) (set_object_array_element p i v m) (set-IsArray p a ws m h i v) j
    ∙ (go i
        ∙ ap (λ g. if ltb j a.len then (if same_index i (pos j) then v else g) else 0)
            (sym (get_lem p a ws m h j)))
  where
    go :
        (i : ℤ)
        → (if ltb j a.len
            then (elim (get_elem? (written a i v ws) j) [ some x ↦ x | none ↦ 0 ])
            else 0)
          ≡ (if ltb j a.len
              then (if same_index i (pos j)
                  then v
                  else (if ltb j a.len
                      then (elim (get_elem? ws j) [ some x ↦ x | none ↦ 0 ])
                      else 0))
              else 0)
    go (negsuc i) = ground arith
    go (pos i) = ground (arith, get_elem?-set ws i j v, h.size)

take-splice :
    (len j : ℕ) (buf rest : List ℕ)
    → len ≤ length buf
    → get_elem? (take len buf ++ rest) j
      ≡ (if ltb j len then get_elem? buf j else get_elem? rest (j - len))
take-splice zero j buf rest h = let e : j - 0 ≡ j = omega arith in rw e (ground arith)
take-splice (suc len) j [] rest h = absurd (omega arith)
take-splice (suc len) zero (b ∷ buf) rest h = ground arith
take-splice (suc len) (suc j) (b ∷ buf) rest h =
    let e : suc j - suc len ≡ j - len = omega arith in
    rw e (take-splice len j buf rest (omega arith) ∙ ground arith)

get_elem?-drop : (n j : ℕ) (ws : List ℕ) → get_elem? (drop n ws) j ≡ get_elem? ws (n + j)
get_elem?-drop zero j ws = let e : 0 + j ≡ j = omega arith in ap (get_elem? ws) (sym e)
get_elem?-drop (suc n) j [] = refl
get_elem?-drop (suc n) j (w ∷ ws) =
    get_elem?-drop n j ws
    ∙ (let e : suc n + j ≡ suc (n + j) = omega arith in ap (get_elem? (w ∷ ws)) (sym e))

-- What stands at an index after the bytes are copied in.
pub get_elem?-splice :
    (start len j : ℕ) (buf ws : List ℕ)
    → len ≤ length buf
    → start + len ≤ length ws
    → get_elem? (splice start len buf ws) j
      ≡ (if leb start j && ltb j (start + len) then get_elem? buf (j - start) else get_elem? ws j)
unfolding splice
get_elem?-splice start len j buf ws hb hw =
    take-splice start j ws (take len buf ++ drop (start + len) ws) (omega arith)
    ∙ ap (λ g. if ltb j start then get_elem? ws j else g)
        (take-splice len (j - start) buf (drop (start + len) ws) hb
          ∙ ap (λ g. if ltb (j - start) len then get_elem? buf (j - start) else g)
              (get_elem?-drop (start + len) (j - start - len) ws))
    ∙ finish
  where
    finish :
        (if ltb j start
          then get_elem? ws j
          else (if ltb (j - start) len
              then get_elem? buf (j - start)
              else get_elem? ws (start + len + (j - start - len))))
        ≡ (if leb start j && ltb j (start + len) then get_elem? buf (j - start) else get_elem? ws j)
    finish = elim (Bool-cases (leb start j && leb (start + len) j)) [
      | inl late ↦
          let e : start + len + (j - start - len) ≡ j = ground (arith, late) in rw e (ground arith)
      | inr early ↦ ground (arith, early)
    ]

-- The byte array at `p`, with its bytes.
pub record IsBytes (p : ℕ) (x : JBytes) (ws : List ℕ) (m : Mem) : Type 0 where
  pub real : p ≢ 0
  pub here : m.cell p ≡ some (bytes x)
  pub filled : x.payload ≢ 0
  pub stored : m.cell x.payload ≡ some (raw ws)
  pub size : length ws ≡ x.len
  pub apart : x.payload ≢ p

length-splice :
    (start len : ℕ) (buf ws : List ℕ)
    → len ≤ length buf
    → start + len ≤ length ws
    → length (splice start len buf ws) ≡ length ws
unfolding splice
length-splice start len buf ws h g = omega (
  arith,
  length-append (take start ws) (take len buf ++ drop (start + len) ws),
  length-append (take len buf) (drop (start + len) ws),
  length-take start ws,
  length-take len buf,
  length-drop (start + len) ws,
)

-- The bytes after the copy.
abbrev pub copied : ℤ → ℤ → List ℕ → List ℕ → List ℕ
copied (pos start) (pos len) buf ws =
    if leb (start + len) (length ws) then splice start len buf ws else ws
copied start len buf ws = ws

abbrev pub start_of : ℤ → ℕ
start_of (pos n) = n
start_of (negsuc n) = 0

inside_len :
    (start len : ℕ) (x : JBytes) (ws : List ℕ)
    → length ws ≡ x.len
    → ltb x.len (start + len) ≡ not (leb (start + len) (length ws))
inside_len start len x ws h = rw h (ground arith)

set_byte_array_region-IsBytes :
    (p : ℕ) (x : JBytes) (ws : List ℕ) (m : Mem)
    → IsBytes p x ws m
    → (start len : ℤ) (buf : List ℕ) → start_of start + start_of len < 2 ^ 63
    → ((n : ℕ) → len ≡ pos n → n ≤ length buf)
    → IsBytes p x (copied start len buf ws) (set_byte_array_region p start len (some buf) m)
unfolding set_byte_array_region store
set_byte_array_region-IsBytes p x ws m h (negsuc s) len buf small b = h
set_byte_array_region-IsBytes p x ws m h (pos s) (negsuc n) buf small b = h
set_byte_array_region-IsBytes p x ws m h (pos s) (pos n) buf small b =
    let lo : ltb (s + n) (2 ^ 63) ≡ true = ground (arith, small) in
    let hi : leb (2 ^ 63) (s + n) ≡ false = ground (arith, small) in
    elim (Bool-cases (leb (s + n) (length ws))) [
      | inr e ↦
          let same : set_byte_array_region p (pos s) (pos n) (some buf) m ≡ m =
            rw
              (
                set_byte_array_region,
                h.here,
                ==_of_ne p 0 h.real,
                ==_of_ne x.payload 0 h.filled,
                lo,
                inside_len s n x ws h.size,
                e,
              )
              refl in
          rw e (subst (IsBytes p x ws) (sym same) h)
      | inl e ↦
          let now : set_byte_array_region p (pos s) (pos n) (some buf) m
              ≡ store x.payload (raw (splice s n buf ws)) m =
            rw
              (
                set_byte_array_region,
                h.here,
                ==_of_ne p 0 h.real,
                ==_of_ne x.payload 0 h.filled,
                lo,
                inside_len s n x ws h.size,
                e,
                hi,
                h.stored,
              )
              refl in
          rw e (
            subst (IsBytes p x (splice s n buf ws)) (sym now)
              (changed (length-splice s n buf ws (b n refl) (ground (arith, e)))))
    ]
  where
    changed :
        length (splice s n buf ws) ≡ length ws
        → IsBytes p x (splice s n buf ws) (store x.payload (raw (splice s n buf ws)) m)
    changed l = record {
      real = h.real;
      here = rw (store, h.stored, ==_of_ne x.payload p h.apart) h.here;
      filled = h.filled;
      stored = rw (store, h.stored, ==_refl x.payload) refl;
      size = l ∙ h.size;
      apart = h.apart;
    }

-- Whether a region that lies within an array of that length covers an index.
abbrev pub covers : ℤ → ℤ → ℕ → ℕ → Bool
covers (pos start) (pos len) n j = leb (start + len) n && (leb start j && ltb j (start + len))
covers start len n j = false

get_elem?-copied :
    (start len : ℤ) (buf ws : List ℕ)
    → ((n : ℕ) → len ≡ pos n → n ≤ length buf)
    → (j : ℕ)
    → get_elem? (copied start len buf ws) j ≡ (
        if covers start len (length ws) j
        then get_elem? buf (j - start_of start)
        else get_elem? ws j)
get_elem?-copied (negsuc s) len buf ws b j = refl
get_elem?-copied (pos s) (negsuc n) buf ws b j = refl
get_elem?-copied (pos s) (pos n) buf ws b j = elim (Bool-cases (leb (s + n) (length ws))) [
  | inr e ↦ rw e refl
  | inl e ↦ rw e (get_elem?-splice s n j buf ws (b n refl) (ground (arith, e)))
]

-- A copy into a byte array keeps it a byte array of its length, and of its bytes only those of the
-- region change, to those of the buffer; a region that does not lie within the array, or begins or
-- has a length below 0, changes nothing. The buffer has as many bytes as are copied, and the sum of
-- start and length is within the range of a `long`.
pub set_byte_array_region_lem :
    (p : ℕ) (x : JBytes) (ws : List ℕ) (m : Mem)
    → IsBytes p x ws m
    → (start len : ℤ) (buf : List ℕ) → start_of start + start_of len < 2 ^ 63
    → ((n : ℕ) → len ≡ pos n → n ≤ length buf)
    → (ws' : List ℕ) × IsBytes p x ws' (set_byte_array_region p start len (some buf) m)
      × ((j : ℕ)
          → get_elem? ws' j ≡ (
              if covers start len (length ws) j
              then get_elem? buf (j - start_of start)
              else get_elem? ws j))
set_byte_array_region_lem p x ws m h start len buf small b = (
  copied start len buf ws,
  set_byte_array_region-IsBytes p x ws m h start len buf small b,
  get_elem?-copied start len buf ws b,
)
