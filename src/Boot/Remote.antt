-- ===== src/Boot/Remote.antt =====
-- boot/remote.go: the keys of the remote configuration and the checks of what they are made of. The
-- environment variable REMOTE_NODE is a parameter.
pub mod Settings
pub mod Layers
pub mod Sessions
use dilu_go_kit.Base.{
  ℕ, ◌*◌, List, [], ◌∷◌, ◌++◌, Option, none, some, Bool, ◌&&◌, ◌||◌, not, if◌then◌else◌, ltb, ◌==◌,
  length,
}
use dilu_go_kit.Base.Int.{ℤ, pos, negsuc}
use dilu_go_kit.Base.Result.{Result, ok, err, ◌>>=◌}
use dilu_go_kit.Base.Text.{Text, beq, codes, len, contains, has_control, trim_space}
use dilu_go_kit.Boot.Config.{RegistryConfig}
use dilu_go_kit.Registry.Keys.Backends.{has_dots, trim_slashes}

-- The errors of the remote configuration. `backend` is an error of the store, other than of a missing
-- key; `in_service` and `in_node` are an error in the layer of that name.
pub data RemoteError : Type 0 where
  service_name config_key config_node not_found too_large : RemoteError
  backend parse merge_map decode encode : Text → RemoteError
  sensitive : Text → RemoteError
  in_service in_node : RemoteError → RemoteError

-- A value of the store: bytes.
abbrev pub Bytes : Type 0
Bytes = List ℕ

-- validateRemoteConfigPayload
unfoldable pub validate_remote_config_payload : Bytes → Result RemoteError (Unit {0})
validate_remote_config_payload payload =
    if ltb 4_194_304 (length payload) then err too_large else ok tt

-- configKeyPrefix
unfoldable pub config_key_prefix : RegistryConfig → Text
unfolding trim_slashes
config_key_prefix r =
    let prefix = if beq r.config_key [] then codes "/config/" else r.config_key in
    trim_slashes prefix ++ b'/' ∷ []

-- resolveConfigKey
unfoldable pub resolve_config_key : RegistryConfig → Text → Text
unfolding config_key_prefix
resolve_config_key r name = config_key_prefix r ++ name

-- configNode; `env` is REMOTE_NODE.
abbrev pub config_node_of : (env : Text) → RegistryConfig → Text
config_node_of env r = if beq r.config_node [] then env else r.config_node

-- strings.TrimLeft(s, "/")
unfoldable pub drop_slashes : Text → Text
drop_slashes [] = []
drop_slashes (c ∷ s) = let rest = drop_slashes s in if c == b'/' then rest else c ∷ s

-- resolveConfigNodeKey, which is empty where there is no node
unfoldable pub resolve_config_node_key : (env : Text) → RegistryConfig → Text → Text
unfolding resolve_config_key drop_slashes trim_slashes
resolve_config_node_key env r name =
    let node = config_node_of env r in
    if beq node []
    then []
    else resolve_config_key r name ++ (b'/' ∷ trim_slashes (drop_slashes node))

-- configFormat
unfoldable pub config_format_of : RegistryConfig → Text
config_format_of r = if beq r.config_format (codes "json") then codes "json" else codes "yaml"

-- dialTimeout, in nanoseconds
unfoldable pub dial_timeout_of : RegistryConfig → ℕ
dial_timeout_of r = elim r.dial_timeout [
  | pos n ↦
      if ltb 0 n then (if ltb 300 n then 300_000_000_000 else n * 1_000_000_000) else 5_000_000_000
  | negsuc n ↦ 5_000_000_000
]

abbrev name_bad : Text → Bool
name_bad n = beq n [] || ltb 128 (len n) || contains b'/' n || has_control n

abbrev key_bad : Text → Bool
key_bad k = ltb 256 (len k) || has_control k || has_dots k

abbrev node_bad : Text → Bool
node_bad n = not (beq n []) && (ltb 128 (len n) || contains b'/' n || has_control n)

-- validateRemoteConfigInputs
unfoldable pub validate_remote_config_inputs :
    (env : Text) → RegistryConfig → Text → Result RemoteError (Unit {0})
unfolding has_dots
validate_remote_config_inputs env r name =
    if name_bad name
    then err service_name
    else if key_bad r.config_key
    then err config_key
    else if node_bad (config_node_of env r)
    then err config_node
    else ok tt
