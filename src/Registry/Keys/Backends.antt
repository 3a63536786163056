-- ===== src/Registry/Keys/Backends.antt =====
-- registry/registry.go: the registered backends, and the defaults of Config. A factory is of any type.
use dilu_go_kit.Base.{
  ℕ, List, [], ◌∷◌, ◌++◌, map, Option, none, some, Bool, true, false, ◌&&◌, ◌||◌, not,
  if◌then◌else◌, ltb, leb, ◌==◌, all, ◌≡◌, refl,
}
use dilu_go_kit.Base.Int.{ℤ, positive_or}
use dilu_go_kit.Base.Text.{Text, beq, codes, len, trim_space, to_lower, has_control, has_prefix}
use dilu_go_kit.Base.Text.Sorting.{sort}
use dilu_go_kit.Base.Dict.{lookup, insert, keys, lookup-insert}

abbrev pub is_name_byte : ℕ → Bool
is_name_byte c = (leb b'a' c && leb c b'z') || (leb b'0' c && leb c b'9') || c == b'_' || c == b'-'

-- normalizeBackendName
unfoldable pub normalize_backend_name : Text → Text
normalize_backend_name name =
    let n = map to_lower (trim_space name) in if all is_name_byte n then n else []

-- registryType, of the Type of a configuration.
unfoldable pub registry_type : Text → Text
registry_type kind =
    let value = map to_lower (trim_space kind) in if beq value [] then codes "etcd" else value

pub data BackendError : Type 0 where
  name_invalid factory_nil : BackendError

module _ {ℓ} {F : Type ℓ} where
  -- RegisterBackend
  unfoldable pub register_backend :
      List (Text × F) → Text → Option F → List (Text × F) × Option BackendError
  register_backend fs name none =
      (fs, some (if beq (normalize_backend_name name) [] then name_invalid else factory_nil))
  register_backend fs name (some f) =
      let n = normalize_backend_name name in
      if beq n [] then (fs, some name_invalid) else (insert n f fs, none)

  -- BackendNames
  unfoldable pub backend_names : List (Text × F) → List Text
  backend_names fs = sort (keys fs)

  -- The factory that New calls; `none` is its error.
  unfoldable pub factory_for : List (Text × F) → Text → Option F
  factory_for fs kind = lookup (registry_type kind) fs

kept_or_blank :
    (n : Text) (b : Bool)
    → beq (if b then n else []) [] ≡ false
    → (if beq n [] then codes "etcd" else n) ≡ (if b then n else [])
unfolding beq
kept_or_blank n true h = rw h refl
kept_or_blank n false h = cc

normalized_type :
    (kind : Text)
    → beq (normalize_backend_name kind) [] ≡ false
    → registry_type kind ≡ normalize_backend_name kind
unfolding registry_type normalize_backend_name
normalized_type kind h =
    let value = map to_lower (trim_space kind) in kept_or_blank value (all is_name_byte value) h

-- A backend that RegisterBackend accepted is the one that New calls for every Type that is the same
-- name but for letter case and surrounding spaces, also if the name was taken before; for every Type
-- with another valid name New calls what it called before.
pub registered_backend {ℓ} :
    {F : Type ℓ} (fs : List (Text × F)) (name kind : Text) (f : F)
    → beq (normalize_backend_name name) [] ≡ false
    → beq (normalize_backend_name kind) [] ≡ false
    → let (fs', problem) = register_backend fs name (some f) in
      (problem ≡ none)
      × (factory_for fs' kind ≡ (
          if beq (normalize_backend_name name) (normalize_backend_name kind)
          then some f
          else factory_for fs kind))
unfolding register_backend factory_for
registered_backend fs name kind f valid there =
    let n = normalize_backend_name name in
    (
      rw valid refl,
      rw (valid, normalized_type kind there) (lookup-insert n (normalize_backend_name kind) f fs),
    )

-- Contains(s, "..")
abbrev pub starts_with_dot : Text → Bool
starts_with_dot [] = false
starts_with_dot (c ∷ s) = c == b'.'

unfoldable pub has_dots : Text → Bool
has_dots [] = false
has_dots (c ∷ s) = (c == b'.' && starts_with_dot s) || has_dots s

-- TrimRight(s, "/")
unfoldable pub trim_slashes : Text → Text
trim_slashes [] = []
trim_slashes (c ∷ s) =
    let rest = trim_slashes s in if c == b'/' && beq rest [] then [] else c ∷ rest

abbrev pub default_prefix : Text
default_prefix = codes "/mofang/services/"

-- prefix
unfoldable pub effective_prefix : Text → Text
unfolding has_dots trim_slashes
effective_prefix prefix =
    let value = trim_space prefix in
    if beq value []
    then default_prefix
    else if ltb 256 (len value) || has_control value || has_dots value
    then default_prefix
    else trim_slashes value ++ b'/' ∷ []

-- ttl, in seconds
unfoldable pub effective_ttl : ℤ → ℕ
effective_ttl ttl = positive_or 30 ttl

-- checkPath
unfoldable pub effective_check_path : Text → Text
effective_check_path path =
    if beq path []
    then codes "/ready"
    else if has_prefix (codes "/") path
    then path
    else b'/' ∷ path

-- consulCheckType; `none` is the error.
unfoldable pub consul_check_type : Text → Option Text
consul_check_type kind =
    let value = map to_lower (trim_space kind) in
    if beq value []
    then some (codes "ttl")
    else if not (beq value (codes "ttl")) && not (beq value (codes "http"))
    then none
    else some value
