-- ===== src/Objects/Fresh.antt =====
-- A new object of harness/jinterop.c, or a new byte array, joins the registry safely: `malloc` gives
-- an address that nothing holds.
use wetype_ime_linux.Base.{
  ℕ, ◌≤◌, ◌<◌, ◌≡◌, ◌≢◌, refl, sym, ap, subst, ◌∙◌, ◌⊎◌, inl, inr, List, [], ◌∷◌, ◌++◌, Option,
  none, some, Bool-cases, ==_of_ne, arith,
}
use mathlib.Core.List.{
  Mem, Nodup, Nodup-cons, not-mem-nil, mem-singleton, Nodup-nil, perm_append_comm,
}
use native.Mathlib.Nat.{ℕ_set}
use wetype_ime_linux.Memory.{Mem as Memory, Cell, obj, JObj, jo_magic, alloc}
use wetype_ime_linux.Registry.{Reg, REnt, RKind, r_jobj, reg_add}
use wetype_ime_linux.Registry.View.{view, IsTable, reg_add_cases}
use wetype_ime_linux.Registry.Ownership.{
  IsOwned, owned, IsOwned-cons, IsOwned-tail, IsOwned-perm, owned_eq, parts_bare,
}
use wetype_ime_linux.Registry.Safety.{IsSafe}
use wetype_ime_linux.Objects.{obj_new, enroll}

-- No address from `next` on is in use, and NULL never is.
pub record IsFresh (m : Memory) : Type 0 where
  pub unused : (a : ℕ) → m.next ≤ a → m.cell a ≡ none
  pub positive : 0 < m.next

alloc_lem :
    (x : Cell) (m : Memory)
    → IsFresh m
    → IsFresh (alloc x m).1
      × (((alloc x m).0 ≡ 0) × ((alloc x m).1.cell ≡ m.cell)
          ⊎ ((alloc x m).0 ≢ 0)
            × (m.cell (alloc x m).0 ≡ none)
            × ((alloc x m).1.cell (alloc x m).0 ≡ some x)
            × ((a : ℕ) → a ≢ (alloc x m).0 → (alloc x m).1.cell a ≡ m.cell a))
unfolding alloc
alloc_lem x m f = elim (Bool-cases (m.grants m.next)) [
  | inl yes_mem ↦ rw yes_mem (
    record { unused = λ a h. ground (arith, f.unused a); positive = omega arith },
    inr (λ e. ground arith, f.unused m.next (omega arith), ground arith, λ a ne. ground arith),
  )
  | inr no_mem ↦ rw no_mem (
    record { unused = λ a h. f.unused a (omega arith); positive = omega arith },
    inl (refl, refl),
  )
]

-- An entry whose object is already safe beside the others is added safely.
reg_add-IsSafe :
    (p : ℕ) (k : RKind) (now : ℕ) (r : Reg)
    → p ≢ 0
    → IsTable r
    → IsFresh r.mem
    → IsOwned r.mem.cell (record { p = p; k = k; t = now; pin = 0 } ∷ view r)
    → let r' = reg_add p k now r in IsSafe r' × IsFresh r'.mem × IsTable r'
reg_add-IsSafe p k now r nz t f v =
    let e : REnt = record { p = p; k = k; t = now; pin = 0 } in
    let r' = reg_add p k now r in
    let (t', same, later, added) = reg_add_cases p k now r nz t in
    let fresh : IsFresh r'.mem = record {
      unused = λ a h. ap (λ (c : ℕ → Option Cell). c a) same ∙ f.unused a (omega arith);
      positive = omega (arith, f.positive);
    } in
    let safe : IsOwned r.mem.cell (view r') = elim added [
      | inl more ↦ subst (IsOwned r.mem.cell) (sym more) (
          IsOwned-perm r.mem.cell (e ∷ view r) (view r ++ e ∷ [])
            (perm_append_comm (e ∷ []) (view r)) v)
      | inr none_added ↦
          subst (IsOwned r.mem.cell) (sym none_added) (IsOwned-tail r.mem.cell e (view r) v)
    ] in
    (subst (λ c. IsOwned c (view r')) (sym same) safe, fresh, t')

enroll-IsSafe :
    (now p : ℕ) (m : Memory) (r : Reg) (o : JObj)
    → IsTable r
    → IsFresh m
    → IsSafe r
    → o.f ≡ []
    → ((p ≡ 0) × (m.cell ≡ r.mem.cell))
      ⊎ ((p ≢ 0)
          × (r.mem.cell p ≡ none)
          × (m.cell p ≡ some (obj o))
          × ((a : ℕ) → a ≢ p → m.cell a ≡ r.mem.cell a))
    → let r' = (enroll now r (p, m)).1 in IsSafe r' × IsFresh r'.mem × IsTable r'
unfolding enroll
enroll-IsSafe now p m r o t f safe bare (inl (null, same)) =
    rw null
      (subst (λ c. IsOwned c (view r)) (sym same) safe, f, record { fits = t.fits; kept = t.kept })
enroll-IsSafe now p m r o t f safe bare (inr (nz, empty, full, rest)) =
    let e : REnt = record { p = p; k = r_jobj; t = now; pin = 0 } in
    let alone = parts_bare (m.cell p) o full bare in
    let mine : owned m.cell e ≡ p ∷ [] = owned_eq m.cell e [] alone in
    let own : (a : ℕ) → Mem a (owned m.cell e) → a ≡ p =
      λ a i. (mem-singleton ℕ_set).0 (subst (Mem a) mine i) in
    let v : IsOwned m.cell (e ∷ view r) =
      IsOwned-cons r.mem.cell m.cell e (view r) safe (λ h. ground (arith, alone, h))
        (subst Nodup (sym mine) (Nodup-cons.1 (not-mem-nil, Nodup-nil)))
        (λ a i.
          let q = own a i in
          (λ z. nz (sym q ∙ z), ap r.mem.cell q ∙ empty, λ h. ground (arith, ap m.cell q, full, h)))
        (λ a n. rest a (λ q. n (subst (Mem a) (sym mine) ((mem-singleton ℕ_set).1 q)))) in
    let done =
      reg_add-IsSafe p r_jobj now (record r { mem = m }) nz
        (record { fits = t.fits; kept = t.kept }) f v in
    rw (==_of_ne p 0 nz) done

pub obj_new-IsSafe :
    (cls : List ℕ) (now : ℕ) (r : Reg)
    → IsTable r
    → IsFresh r.mem
    → IsSafe r
    → let r' = (obj_new cls now r).1 in IsSafe r' × IsFresh r'.mem × IsTable r'
unfolding obj_new
obj_new-IsSafe cls now r t f safe =
    let o : JObj = record { magic = jo_magic; cls = cls; f = [] } in
    let (f', given) = alloc_lem (obj o) r.mem f in
    enroll-IsSafe now (alloc (obj o) r.mem).0 (alloc (obj o) r.mem).1 r o t f' safe refl given
