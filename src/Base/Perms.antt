-- ===== src/Base/Perms.antt =====
-- Permutations of lists that are split by a test or regrouped.
use mathlib.Core.Path.{subst}
use mathlib.Core.Bool.{Bool, not}
use mathlib.Core.List.{List, [], ◌∷◌, ◌++◌, Perm, perm_middle, perm_append_comm, append_assoc}
use mathlib.Core.List.Perm
use native.Mathlib.Omega.{arith}
use wetype_ime_linux.Base.Lists.{filter}

module _ {ℓ} {A : Type ℓ} where
  -- A filter and its complement share out a list.
  pub partition_perm :
      (p : A → Bool) (xs : List A) → Perm xs (filter p xs ++ filter (λ e. not (p e)) xs)
  partition_perm p [] = Perm.nil
  partition_perm p (x ∷ xs) =
      let rest = Perm.cons x (partition_perm p xs) in
      ground (
        arith,
        rest,
        Perm.trans rest (Perm.symm (perm_middle (filter p xs) (filter (λ e. not (p e)) xs))),
      )

  pub exchange_perm : (xs ys zs : List A) → Perm (xs ++ (ys ++ zs)) (ys ++ (xs ++ zs))
  exchange_perm xs ys zs =
      subst (λ l. Perm l (ys ++ (xs ++ zs))) (append_assoc xs ys zs)
        (subst (Perm ((xs ++ ys) ++ zs)) (append_assoc ys xs zs)
          (Perm.append (perm_append_comm xs ys) (Perm.refl zs)))
