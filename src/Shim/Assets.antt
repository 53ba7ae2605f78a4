-- ===== src/Shim/Assets.antt =====
-- The life of an asset of shim/libandroid.c.
use wetype_ime_linux.Base.{
  ℕ, ◌<◌, ◌≡◌, refl, sym, ap, ◌∙◌, ◌⊎◌, inl, inr, List, [], ◌∷◌, ◌++◌, Option, none, some, Bool,
  true, false, ◌==◌, ==_iff, Bool-cases, Option-cases, All, take, arith,
}
use wetype_ime_linux.Shim.{
  Shim, Asset, asset_roots, path_room, fclose, put_asset, open_file, open_from, asset_open,
  open_file_descriptor, asset_close,
}

module _ (files : List ℕ → Option ℕ) (grants : ℕ → Bool) where
  -- No root has the path.
  abbrev pub Absent : List ℕ → List (List ℕ) → Type 0
  Absent path roots = All (λ (root : List ℕ). files (take path_room (root ++ path)) ≡ none) roots

  -- The first root that has the path has a file of this size there.
  abbrev pub Serves : List ℕ → ℕ → List (List ℕ) → Type 0
  Serves path size [] = ⊥
  Serves path size (root ∷ roots) =
      (files (take path_room (root ++ path)) ≡ some size)
      ⊎ ((files (take path_room (root ++ path)) ≡ none) × Serves path size roots)

  -- Nothing is left behind.
  pub record IsUndone (s t : Shim) : Type 0 where
    pub handles : t.handles ≡ s.handles
    pub assets : (q : ℕ) → t.assets q ≡ s.assets q

  -- An asset of this size is open at `p`, and its close leaves nothing behind.
  pub record IsOpen (s : Shim) (size p : ℕ) (t : Shim) : Type 0 where
    pub new : p ≡ s.next
    pub reads : open_file_descriptor p t ≡ some (0, size, s.next_handle)
    pub closes : IsUndone s (asset_close p t)

  fclose_head : (h : ℕ) (xs : List ℕ) → fclose h (h ∷ xs) ≡ xs
  unfolding fclose
  fclose_head h xs = rw ((==_iff h h).1 refl) refl

  put_asset_self : (p : ℕ) (v : Option Asset) (tab : ℕ → Option Asset) → put_asset p v tab p ≡ v
  unfolding put_asset
  put_asset_self p v tab = rw ((==_iff p p).1 refl) refl

  put_asset_undone :
      (p : ℕ) (a : Asset) (tab : ℕ → Option Asset)
      → tab p ≡ none
      → (q : ℕ) → put_asset p none (put_asset p (some a) tab) q ≡ tab q
  unfolding put_asset
  put_asset_undone p a tab f q = elim (Bool-cases (p == q)) [
    | inl y ↦ rw y (sym f ∙ ap tab ((==_iff p q).0 y))
    | inr y ↦ rw y refl
  ]

  open_file_lem :
      (size : ℕ) (s : Shim)
      → s.assets s.next ≡ none
      → 0 < s.next_handle
      → ((grants s.next ≡ true)
          × IsOpen s size (open_file files grants size s).0 (open_file files grants size s).1)
        ⊎ ((grants s.next ≡ false)
            × ((open_file files grants size s).0 ≡ 0)
            × IsUndone s (open_file files grants size s).1)
  unfolding open_file open_file_descriptor asset_close
  open_file_lem size s f h =
      let a : Asset = record { f = s.next_handle; size = size } in
      let self = put_asset_self s.next (some a) s.assets in
      let nz : (s.next_handle == 0) ≡ false = ground (arith, h) in
      elim (Bool-cases (grants s.next)) [
        | inl e ↦ inl (
          e,
          rw e (record {
            new = refl;
            reads = rw (open_file_descriptor, self, nz) refl;
            closes =
                rw (asset_close, self, nz)
                  (record {
                    handles = fclose_head s.next_handle s.handles;
                    assets =
                        put_asset_undone s.next (record { f = s.next_handle; size = size }) s.assets
                          f;
                  });
          }),
        )
        | inr e ↦ inr (
          e,
          rw e refl,
          rw e (record { handles = fclose_head s.next_handle s.handles; assets = λ q. refl }),
        )
      ]

  -- How an open ends: the first root that has the path gives the asset, its whole file is what its
  -- descriptor spans, and its close leaves nothing behind; NULL comes back only if no root has the
  -- path or there is no memory, and then nothing is left open.
  pub data Ended (path : List ℕ) (roots : List (List ℕ)) (s : Shim) (p : ℕ) (t : Shim)
      : Type 0 where
    served :
        (size : ℕ)
        → Serves path size roots
        → grants s.next ≡ true
        → IsOpen s size p t
        → Ended path roots s p t
    failed :
        Absent path roots ⊎ (grants s.next ≡ false) → p ≡ 0 → IsUndone s t → Ended path roots s p t

  open_from-Ended :
      (path : List ℕ) (roots : List (List ℕ)) (s : Shim)
      → s.assets s.next ≡ none
      → 0 < s.next_handle
      → Ended path roots s
          (open_from files grants roots path s).0
          (open_from files grants roots path s).1
  unfolding open_from
  open_from-Ended path [] s f h =
      failed (inl tt) refl (record { handles = refl; assets = λ q. refl })
  open_from-Ended path (root ∷ roots) s f h =
      elim (Option-cases (files (take path_room (root ++ path)))) [
        | inl e ↦ rw (open_from, e) (later e (open_from-Ended path roots s f h))
        | inr (size, e) ↦ elim (open_file_lem size s f h) [
          | inl (g, o) ↦ rw (open_from, e) (served size (inl e) g o)
          | inr (g, z, u) ↦ rw (open_from, e) (failed (inr g) z u)
        ]
      ]
    where
      later :
          {p : ℕ} {t : Shim}
          → files (take path_room (root ++ path)) ≡ none
          → Ended path roots s p t
          → Ended path (root ∷ roots) s p t
      later e (served size r g o) = served size (inr (e, r)) g o
      later e (failed (inl a) z u) = failed (inl (e, a)) z u
      later e (failed (inr g) z u) = failed (inr g) z u

  -- An asset is opened from the first of the three roots that has it, its descriptor spans its whole
  -- file, and its close gives back all that the open took; NULL comes back only if no root has the
  -- path or there is no memory, and then no file stays open.
  pub asset_open-Ended :
      (path : List ℕ) (s : Shim)
      → s.assets s.next ≡ none
      → 0 < s.next_handle
      → Ended path asset_roots s
          (asset_open files grants path s).0
          (asset_open files grants path s).1
  unfolding asset_open
  asset_open-Ended path s f h = open_from-Ended path asset_roots s f h
