-- ===== src/Registry/Ownership.antt =====
-- Memory safety of the recycler of harness/jinterop.c: which addresses each registered object
-- owns, and that freeing objects frees each of those once and leaves the others alone.
use wetype_ime_linux.Base.{
  ℕ, ◌≡◌, refl, sym, ap, ap₂, ◌∙◌, inl, inr, ◌≢◌, List, [], ◌∷◌, ◌++◌, Option, none, some, ◌&&◌,
  ◌==◌, subst, ℕ_discrete, if◌then◌else◌, Option-cases, arith,
}
use mathlib.Core.List.{
  Mem, Perm, Nodup, Nodup-cons, Nodup-append, Disjoint-left, mem-cons, mem-append, not-mem-nil,
  dec_mem, Permᴰ, Perm-prop, append_assoc, Mem-prop, mem-cons_self, mem-cons_of_mem,
}
use mathlib.Core.List.Perm
use mathlib.Core.Logic.Or
use mathlib.Core.HLevel.{¬_prop, ×_prop}
use mathlib.Core.Logic.{∨₁_prop, ∥∥₁_elim}
use wetype_ime_linux.Base.Perms.{exchange_perm}
use wetype_ime_linux.Memory.{Mem as Memory, Cell, JObj, obj, arr, bytes, JField, free, free_all}
use wetype_ime_linux.Registry.{
  Reg, REnt, RKind, r_jobj, r_jarr, r_jbytes, free_fields, free_cell, reg_free_obj, free_dead,
}

-- A list with an address in front, unless it is NULL.
abbrev pub cons_nz : ℕ → List ℕ → List ℕ
cons_nz p ps = if p == 0 then ps else p ∷ ps

-- The addresses of the strings that an object's fields own.
pub strings_of : List JField → List ℕ
strings_of [] = []
strings_of (x ∷ xs) =
    let rest = strings_of xs in if (x.type == b's') && x.owned then cons_nz x.val rest else rest

-- The addresses that `reg_free_obj` frees for what stands in the entry's cell; `none` if that is
-- not an object of the entry's kind.
pub parts : RKind → Option Cell → Option (List ℕ)
parts k none = none
parts r_jobj (some (obj o)) = some (strings_of o.f)
parts r_jarr (some (arr a)) = some (cons_nz a.elem [])
parts r_jbytes (some (bytes b)) = some (cons_nz b.payload [])
parts k (some c) = none

pub owned_of : RKind → Option Cell → ℕ → List ℕ
owned_of k o p = elim (parts k o) [ none ↦ [] | some ps ↦ ps ++ p ∷ [] ]

abbrev pub owned : (ℕ → Option Cell) → REnt → List ℕ
owned c e = owned_of e.k (c e.p) e.p

abbrev pub owned_all : (ℕ → Option Cell) → List REnt → List ℕ
owned_all c [] = []
owned_all c (e ∷ es) = owned c e ++ owned_all c es

-- The entries hold objects of their kinds, every address that these own is allocated, and none is
-- owned twice.
pub record IsOwned (c : ℕ → Option Cell) (es : List REnt) : Type 0 where
  pub kinds : (e : REnt) → Mem e es → parts e.k (c e.p) ≢ none
  pub live : (a : ℕ) → Mem a (owned_all c es) → (a ≢ 0) × (c a ≢ none)
  pub once : Nodup (owned_all c es)

pub owned_eq :
    (c : ℕ → Option Cell) (e : REnt) (ps : List ℕ)
    → parts e.k (c e.p) ≡ some ps
    → owned c e ≡ ps ++ e.p ∷ []
unfolding owned_of
owned_eq c e ps h = rw (h, owned_of)

-- What freeing a list of distinct allocated addresses does.
pub record Freed (ps : List ℕ) (m m' : Memory) : Type 0 where
  pub gone : (a : ℕ) → Mem a ps → m'.cell a ≡ none
  pub rest : (a : ℕ) → ¬ Mem a ps → m'.cell a ≡ m.cell a
  pub sound : m'.fault ≡ m.fault

free_lem :
    (p : ℕ) (m : Memory)
    → p ≢ 0
    → m.cell p ≢ none
    → ((free p m).cell p ≡ none)
      × ((free p m).fault ≡ m.fault)
      × ((a : ℕ) → a ≢ p → (free p m).cell a ≡ m.cell a)
unfolding free
free_lem p m nz live = (ground arith, ground arith, λ a ne. ground arith)

mem_tail : {a p : ℕ} {ps : List ℕ} → a ≢ p → Mem a (p ∷ ps) → Mem a ps
mem_tail ne i = Or.elim Mem-prop (mem-cons.0 i) (λ e. absurd (ne e)) (λ j. j)

mem_of_eq : {a p : ℕ} {ps : List ℕ} → a ≡ p → Mem a (p ∷ ps)
mem_of_eq e = mem-cons.1 (Or.inl e)

ne_of_mem : {a p : ℕ} {ps : List ℕ} → Mem a ps → ¬ Mem p ps → a ≢ p
ne_of_mem {a} {p} {ps} i n e = n (subst (λ x. Mem x ps) e i)

pub free_all_lem :
    (ps : List ℕ) (m : Memory)
    → Nodup ps
    → ((a : ℕ) → Mem a ps → (a ≢ 0) × (m.cell a ≢ none))
    → Freed ps m (free_all ps m)
unfolding free_all
free_all_lem [] m d h = record {
  gone = λ a i. absurd (not-mem-nil i);
  rest = λ a n. refl;
  sound = refl;
}
free_all_lem (p ∷ ps) m d h =
    let apart = Nodup-cons.0 d in
    let hp = h p mem-cons_self in
    let (gone_p, sound_p, rest_p) = free_lem p m hp.0 hp.1 in
    let ih = free_all_lem ps (free p m) apart.1 (λ a i.
      let ha = h a (mem-cons_of_mem p i) in
      (ha.0, λ e. ha.1 (sym (rest_p a (ne_of_mem i apart.0)) ∙ e))) in
    record {
      gone = λ a i. elim (ℕ_discrete a p) [
        | yes e ↦ rw e (ih.rest p apart.0 ∙ gone_p)
        | no ne ↦ ih.gone a (mem_tail ne i)
      ];
      rest = λ a n. ih.rest a (λ i. n (mem-cons_of_mem p i)) ∙ rest_p a (λ e. n (mem_of_eq e));
      sound = ih.sound ∙ sound_p;
    }

free_all-append :
    (xs ys : List ℕ) (m : Memory) → free_all (xs ++ ys) m ≡ free_all ys (free_all xs m)
unfolding free_all
free_all-append [] ys m = refl
free_all-append (x ∷ xs) ys m = free_all-append xs ys (free x m)

free_all-cons_nz :
    (p : ℕ) (ps : List ℕ) (m : Memory) → free_all (cons_nz p ps) m ≡ free_all ps (free p m)
unfolding free_all free
free_all-cons_nz p ps m = ground arith

free_fields_lem : (fs : List JField) (m : Memory) → free_fields fs m ≡ free_all (strings_of fs) m
unfolding free_fields strings_of free_all
free_fields_lem [] m = refl
free_fields_lem (x ∷ xs) m = ground (
  arith,
  free_fields_lem xs m,
  free_fields_lem xs (free x.val m),
  free_all-cons_nz x.val (strings_of xs) m,
)

free_cell_mem :
    (k : RKind) (o : Option Cell) (p : ℕ) (r : Reg) (ps : List ℕ)
    → parts k o ≡ some ps
    → (free_cell k o p r).mem ≡ free_all (ps ++ p ∷ []) r.mem
unfolding parts free_cell free_all
free_cell_mem r_jobj (some (obj o)) p r ps h =
    ground (arith, free_fields_lem o.f r.mem, free_all-append ps (p ∷ []) r.mem)
free_cell_mem r_jarr (some (arr a)) p r ps h =
    ground (arith, free_all-cons_nz a.elem [] r.mem, free_all-append ps (p ∷ []) r.mem)
free_cell_mem r_jbytes (some (bytes b)) p r ps h =
    ground (arith, free_all-cons_nz b.payload [] r.mem, free_all-append ps (p ∷ []) r.mem)
free_cell_mem _ _ p r ps h = cc

-- `reg_free_obj` frees what the entry owns, in order, the object last.
free_obj_mem :
    (e : REnt) (r : Reg)
    → parts e.k (r.mem.cell e.p) ≢ none
    → (reg_free_obj e r).mem ≡ free_all (owned r.mem.cell e) r.mem
unfolding reg_free_obj
free_obj_mem e r h = elim (Option-cases (parts e.k (r.mem.cell e.p))) [
  | inl e0 ↦ absurd (h e0)
  | inr (ps, e1) ↦
      free_cell_mem e.k (r.mem.cell e.p) e.p r ps e1
      ∙ ap (λ xs. free_all xs r.mem) (sym (owned_eq r.mem.cell e ps e1))
]

-- An entry's own address is among those that it owns.
self-mem-owned : (c : ℕ → Option Cell) (e : REnt) → parts e.k (c e.p) ≢ none → Mem e.p (owned c e)
self-mem-owned c e h = elim (Option-cases (parts e.k (c e.p))) [
  | inl e0 ↦ absurd (h e0)
  | inr (ps, e1) ↦ rw (owned_eq c e ps e1) (mem-append.1 (Or.inr mem-cons_self))
]

owned-mem-all :
    (c : ℕ → Option Cell) (e : REnt) (a : ℕ) (es : List REnt)
    → Mem e es
    → Mem a (owned c e)
    → Mem a (owned_all c es)
owned-mem-all c e a [] i j = absurd (not-mem-nil i)
owned-mem-all c e a (x ∷ es) i j = mem-append.1 (
    Or.elim ∨₁_prop (mem-cons.0 i) (λ eq. Or.inl (subst (λ y. Mem a (owned c y)) eq j))
      (λ i'. Or.inr (owned-mem-all c e a es i' j)))

owned_all_ext :
    (c c' : ℕ → Option Cell) (es : List REnt)
    → ((e : REnt) → Mem e es → c' e.p ≡ c e.p)
    → owned_all c' es ≡ owned_all c es
owned_all_ext c c' [] h = refl
owned_all_ext c c' (e ∷ es) h =
    ap₂ ◌++◌ (ap (λ o. owned_of e.k o e.p) (h e mem-cons_self))
      (owned_all_ext c c' es (λ x i. h x (mem-cons_of_mem e i)))

-- Freeing the first object frees just what it owns, and leaves the other entries whole.
pub free_obj-IsOwned :
    (e : REnt) (es : List REnt) (r : Reg)
    → IsOwned r.mem.cell (e ∷ es)
    → Freed (owned r.mem.cell e) r.mem (reg_free_obj e r).mem
      × IsOwned (reg_free_obj e r).mem.cell es
      × ((x : REnt) → Mem x es → (reg_free_obj e r).mem.cell x.p ≡ r.mem.cell x.p)
free_obj-IsOwned e es r v =
    let c = r.mem.cell in
    let c' = (reg_free_obj e r).mem.cell in
    let (mine, others, apart) = Nodup-append.0 v.once in
    let freed : Freed (owned c e) r.mem (reg_free_obj e r).mem =
      subst (Freed (owned c e) r.mem) (sym (free_obj_mem e r (v.kinds e mem-cons_self)))
        (free_all_lem (owned c e) r.mem mine (λ a i. v.live a (mem-append.1 (Or.inl i)))) in
    let away : (a : ℕ) → Mem a (owned_all c es) → c' a ≡ c a =
      λ a i. freed.rest a (λ j. Disjoint-left.0 apart a j i) in
    let same : (x : REnt) → Mem x es → c' x.p ≡ c x.p = λ x i.
      away x.p
        (owned-mem-all c x x.p es i (self-mem-owned c x (v.kinds x (mem-cons_of_mem e i)))) in
    let all_same = owned_all_ext c c' es same in
    (
      freed,
      record {
        kinds = λ x i.
            subst (λ o. parts x.k o ≢ none) (sym (same x i)) (v.kinds x (mem-cons_of_mem e i));
        live = λ a i.
            let i' : Mem a (owned_all c es) = subst (Mem a) all_same i in
            let old = v.live a (mem-append.1 (Or.inr i')) in
            (old.0, subst (λ o. o ≢ none) (sym (away a i')) old.1);
        once = subst Nodup (sym all_same) others;
      },
      same,
    )

owned_all-append :
    (c : ℕ → Option Cell) (xs ys : List REnt)
    → owned_all c (xs ++ ys) ≡ owned_all c xs ++ owned_all c ys
owned_all-append c [] ys = refl
owned_all-append c (x ∷ xs) ys =
    ap (◌++◌ (owned c x)) (owned_all-append c xs ys)
    ∙ sym (append_assoc (owned c x) (owned_all c xs) (owned_all c ys))

-- Frees one after the other.
Freed-append :
    {xs ys : List ℕ} {m₀ m₁ m₂ : Memory} → Freed xs m₀ m₁ → Freed ys m₁ m₂ → Freed (xs ++ ys) m₀ m₂
Freed-append {xs} {ys} f g = record {
  gone = λ a i. elim (dec_mem ℕ_discrete a ys) [
    | yes j ↦ g.gone a j
    | no n ↦ g.rest a n ∙ f.gone a (Or.elim Mem-prop (mem-append.0 i) (λ j. j) (λ j. absurd (n j)))
  ];
  rest = λ a n.
      g.rest a (λ j. n (mem-append.1 (Or.inr j))) ∙ f.rest a (λ j. n (mem-append.1 (Or.inl j)));
  sound = g.sound ∙ f.sound;
}

-- `free_dead` frees each address of the dead once, and leaves the others whole.
pub free_dead-IsOwned :
    (es live : List REnt) (r : Reg)
    → IsOwned r.mem.cell (es ++ live)
    → Freed (owned_all r.mem.cell es) r.mem (free_dead es r).mem
      × IsOwned (free_dead es r).mem.cell live
unfolding free_dead
free_dead-IsOwned [] live r v =
    (record { gone = λ a i. absurd (not-mem-nil i); rest = λ a n. refl; sound = refl }, v)
free_dead-IsOwned (e ∷ es) live r v =
    let (freed, v', same) = free_obj-IsOwned e (es ++ live) r v in
    let (rest, done) = free_dead-IsOwned es live (reg_free_obj e r) v' in
    let c = r.mem.cell in
    let c' = (reg_free_obj e r).mem.cell in
    (
      Freed-append freed (
          subst (λ ps. Freed ps (reg_free_obj e r).mem (free_dead es (reg_free_obj e r)).mem)
            (owned_all_ext c c' es (λ x i. same x (mem-append.1 (Or.inl i)))) rest),
      done,
    )

module _ (c : ℕ → Option Cell) where
  owned_all-permᴰ : {xs ys : List REnt} → Permᴰ xs ys → Perm (owned_all c xs) (owned_all c ys)
  owned_all-permᴰ Permᴰ.nil = Perm.nil
  owned_all-permᴰ (Permᴰ.cons {a = a} {l₁ = l₁} {l₂ = l₂} e p) =
      subst (λ x. Perm (owned_all c (a ∷ l₁)) (owned c x ++ owned_all c l₂)) e
        (Perm.append (Perm.refl (owned c a)) (owned_all-permᴰ p))
  owned_all-permᴰ (Permᴰ.swap {a = a} {b = b} {a' = a'} {b' = b'} {l = l} e f) =
      subst (λ x. Perm (owned_all c (a ∷ b ∷ l)) (owned c x ++ (owned c b' ++ owned_all c l))) f
        (subst (λ y. Perm (owned_all c (a ∷ b ∷ l)) (owned c b ++ (owned c y ++ owned_all c l))) e
          (exchange_perm (owned c a) (owned c b) (owned_all c l)))
  owned_all-permᴰ (Permᴰ.trans p q) = Perm.trans (owned_all-permᴰ p) (owned_all-permᴰ q)

  pub IsOwned-perm : (xs ys : List REnt) → Perm xs ys → IsOwned c xs → IsOwned c ys
  IsOwned-perm xs ys p v =
      let q : Perm (owned_all c xs) (owned_all c ys) = ∥∥₁_elim p Perm-prop owned_all-permᴰ in
      record {
        kinds = λ e i. v.kinds e ((Perm.mem_iff p).1 i);
        live = λ a i. v.live a ((Perm.mem_iff q).1 i);
        once = Perm.nodup q v.once;
      }

-- An object whose addresses all stood empty before joins the others.
pub IsOwned-cons :
    (c c' : ℕ → Option Cell) (e : REnt) (es : List REnt)
    → IsOwned c es
    → parts e.k (c' e.p) ≢ none
    → Nodup (owned c' e)
    → ((a : ℕ) → Mem a (owned c' e) → (a ≢ 0) × (c a ≡ none) × (c' a ≢ none))
    → ((a : ℕ) → ¬ Mem a (owned c' e) → c' a ≡ c a)
    → IsOwned c' (e ∷ es)
IsOwned-cons c c' e es v kind once new same =
    let away : (a : ℕ) → Mem a (owned_all c es) → ¬ Mem a (owned c' e) =
      λ a i j. (v.live a i).1 (new a j).1 in
    let same_p : (x : REnt) → Mem x es → c' x.p ≡ c x.p =
      λ x i. same x.p (away x.p (owned-mem-all c x x.p es i (self-mem-owned c x (v.kinds x i)))) in
    let all_same = owned_all_ext c c' es same_p in
    record {
      kinds = λ x i.
          Or.elim ¬_prop (mem-cons.0 i)
            (λ eq. subst (λ (y : REnt). parts y.k (c' y.p) ≢ none) (sym eq) kind)
            (λ j. subst (λ o. parts x.k o ≢ none) (sym (same_p x j)) (v.kinds x j));
      live = λ a i.
          Or.elim (×_prop ¬_prop ¬_prop) (mem-append.0 i) (λ j. let n = new a j in (n.0, n.2))
            (λ j.
              let j' : Mem a (owned_all c es) = subst (Mem a) all_same j in
              let old = v.live a j' in
              (old.0, subst (λ o. o ≢ none) (sym (same a (away a j'))) old.1));
      once =
          subst (λ l. Nodup (owned c' e ++ l)) (sym all_same)
            (Nodup-append.1 (once, v.once, Disjoint-left.1 (λ a j i. away a i j)));
    }

pub IsOwned-tail :
    (c : ℕ → Option Cell) (e : REnt) (es : List REnt) → IsOwned c (e ∷ es) → IsOwned c es
IsOwned-tail c e es v = record {
  kinds = λ x i. v.kinds x (mem-cons_of_mem e i);
  live = λ a i. v.live a (mem-append.1 (Or.inr i));
  once = (Nodup-append.0 v.once).1;
}

-- An object without fields owns only itself.
pub parts_bare :
    (c : Option Cell) (o : JObj) → c ≡ some (obj o) → o.f ≡ [] → parts r_jobj c ≡ some []
unfolding parts strings_of
parts_bare c o h e = rw (h, e)
