-- ===== src/Shim.antt =====
-- The stand-in for libandroid, shim/libandroid.c: the looper, and the assets over files.
-- The files that can be opened, each with its size, are a parameter, and so is where memory is given;
-- a handle is a number that is never given twice, and an asset is found by its address.
pub mod Assets
use wetype_ime_linux.Base.{
  ℕ, zero, suc, ◌+◌, ◌*◌, ◌%◌, ◌^◌, List, [], ◌∷◌, ◌++◌, Option, none, some, Bool, ◌==◌,
  if◌then◌else◌, take, codes,
}
use wetype_ime_linux.Base.Int.{ℤ, pos, negsuc}

-- What `ALooper_pollOnce` does: it writes these to `*outFd` and `*outEvents`, sleeps so many
-- microseconds, and returns `status`; the status is that of a time-out, below 0.
pub record Poll : Type 0 where
  pub out_fd : ℤ
  pub out_events : ℕ
  pub slept : ℕ
  pub status : ℤ

-- `ALooper_pollOnce`; `none` if it never returns. The product is an `unsigned int`.
unfoldable pub poll_once : ℤ → Option Poll
poll_once (pos t) =
    some
      (record { out_fd = negsuc 0; out_events = 0; slept = (t * 1000) % 2 ^ 32; status = negsuc 2 })
poll_once (negsuc t) = none

-- `wasset_t`.
pub record Asset : Type 0 where
  pub f : ℕ
  pub size : ℕ

-- `g_asset_roots`.
abbrev pub asset_roots : List (List ℕ)
asset_roots = codes "assets/" ∷ codes "runtime/assets/" ∷ codes ".deps/wechat-ime/assets/" ∷ []

-- What a path has room for in `full`.
abbrev pub path_room : ℕ
path_room = 599

-- The handles that are open, the next one, the assets by address, and the next address.
pub record Shim : Type 0 where
  pub handles : List ℕ
  pub next_handle : ℕ
  pub assets : ℕ → Option Asset
  pub next : ℕ

unfoldable pub fclose : ℕ → List ℕ → List ℕ
fclose h [] = []
fclose h (x ∷ xs) = let rest = fclose h xs in if x == h then xs else x ∷ rest

unfoldable pub put_asset : ℕ → Option Asset → (ℕ → Option Asset) → ℕ → Option Asset
put_asset p v tab q = if p == q then v else tab q

module _ (files : List ℕ → Option ℕ) (grants : ℕ → Bool) where
  -- `fopen`, the size, and `malloc`: the address, or 0 with the file closed again.
  unfoldable pub open_file : ℕ → Shim → ℕ × Shim
  open_file size s =
      let h = s.next_handle in
      let opened = record s { handles = h ∷ s.handles; next_handle = suc h } in
      if grants s.next
      then (
        s.next,
        record opened {
          assets = put_asset s.next (some (record { f = h; size = size })) s.assets;
          next = suc s.next;
        },
      )
      else (0, record opened { handles = fclose h (h ∷ s.handles) })

  -- The loop of `AAssetManager_open`.
  unfoldable pub open_from : List (List ℕ) → List ℕ → Shim → ℕ × Shim
  open_from [] path s = (0, s)
  open_from (root ∷ roots) path s =
      let next = open_from roots path s in
      elim (files (take path_room (root ++ path))) [ none ↦ next | some size ↦ open_file size s ]

  -- `AAssetManager_open`.
  unfoldable pub asset_open : List ℕ → Shim → ℕ × Shim
  asset_open path s = open_from asset_roots path s

-- `AAsset_openFileDescriptor`: where the asset begins, its length, and the handle that is duplicated;
-- `none` for -1.
unfoldable pub open_file_descriptor : ℕ → Shim → Option (ℕ × ℕ × ℕ)
open_file_descriptor p s = elim (s.assets p) [
  | none ↦ none
  | some a ↦ if a.f == 0 then none else some (0, a.size, a.f)
]

-- `AAsset_close`.
unfoldable pub asset_close : ℕ → Shim → Shim
asset_close p s = elim (s.assets p) [
  | none ↦ s
  | some a ↦ record s {
    handles = if a.f == 0 then s.handles else fclose a.f s.handles;
    assets = put_asset p none s.assets;
  }
]
