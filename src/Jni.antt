-- ===== src/Jni.antt =====
-- The class registry and the cache of field and method tokens of harness/jinterop.c (`F_FindClass`,
-- `token_cache`, `F_GetFieldID` and its like). A class token is the index of its slot; a token of a
-- field or method is its address. `strdup` is taken to succeed, as in the code.
pub mod Classes
use wetype_ime_linux.Base.{
  ℕ, zero, suc, ◌+◌, List, [], ◌∷◌, ◌++◌, Option, none, some, Bool, true, false, ◌&&◌, ◌==◌, ltb,
  if◌then◌else◌, length, get_elem?, str_eqb,
}

-- The sizes of `g_clsreg` and of the cache.
abbrev pub max_classes : ℕ
max_classes = 2048

abbrev pub max_tokens : ℕ
max_tokens = 8192

-- The first slot, from slot `i` on, that has the name.
unfoldable pub class_index : ℕ → List ℕ → List (List ℕ) → Option ℕ
class_index i name [] = none
class_index i name (x ∷ xs) =
    let rest = class_index (suc i) name xs in if str_eqb x name then some i else rest

-- `F_FindClass`; `none` is NULL, when the registry is full.
unfoldable pub find_class : List ℕ → List (List ℕ) → Option ℕ × List (List ℕ)
find_class name reg = elim (class_index 0 name reg) [
  | some i ↦ (some i, reg)
  | none ↦
      if ltb (length reg) max_classes then (some (length reg), reg ++ name ∷ []) else (none, reg)
]

-- `JIDToken` with the class of its entry and its address.
pub record Token : Type 0 where
  pub cls : ℕ
  pub name : List ℕ
  pub sig : List ℕ
  pub kind : ℕ
  pub tok : ℕ

-- The cache, the next address, and whether `malloc` grants it.
pub record Tokens : Type 0 where
  pub cache : List Token
  pub next : ℕ
  pub grants : ℕ → Bool

unfoldable pub is_token : ℕ → List ℕ → List ℕ → ℕ → Token → Bool
is_token cls name sig kind t =
    (t.cls == cls) && (t.kind == kind) && str_eqb t.name name && str_eqb t.sig sig

unfoldable pub find_token : ℕ → List ℕ → List ℕ → ℕ → List Token → Option Token
find_token cls name sig kind [] = none
find_token cls name sig kind (t ∷ ts) =
    let rest = find_token cls name sig kind ts in
    if is_token cls name sig kind t then some t else rest

-- `token_cache`: the token, or NULL when `malloc` fails; a full cache gives a token that it does not
-- keep. The signature is empty when there is none.
unfoldable pub token_cache : ℕ → List ℕ → List ℕ → ℕ → Tokens → Option Token × Tokens
token_cache cls name sig kind s = elim (find_token cls name sig kind s.cache) [
  | some t ↦ (some t, s)
  | none ↦
      let t : Token = record { cls = cls; name = name; sig = sig; kind = kind; tok = s.next } in
      let s' = record s { next = suc s.next } in
      if s.grants s.next
      then (
        some t,
        if ltb (length s.cache) max_tokens then record s' { cache = s.cache ++ t ∷ [] } else s',
      )
      else (none, s')
]

-- The kind that `F_GetFieldID` gives a signature; `none` is no signature.
unfoldable pub kind_of : Option (List ℕ) → ℕ
kind_of none = b'x'
kind_of (some []) = 0
kind_of (some (c ∷ cs)) = if c == b'L' then b'o' else c

-- `F_GetFieldID` and `F_GetStaticFieldID`.
unfoldable pub get_field_id : ℕ → List ℕ → Option (List ℕ) → Tokens → Option Token × Tokens
get_field_id cls name sig s =
    token_cache cls name (elim sig [ none ↦ [] | some x ↦ x ]) (kind_of sig) s
