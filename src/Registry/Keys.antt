-- ===== src/Registry/Keys.antt =====
-- registry/registry.go: the checks of a service, its keys in a key-value store, and the backends.
-- net.SplitHostPort and strconv.Atoi are parameters.
pub mod RoundTrip
pub mod Backends
use dilu_go_kit.Base.{
  ℕ, ◌+◌, ◌*◌, List, [], ◌∷◌, ◌++◌, map, Option, none, some, Bool, true, false, ◌&&◌, ◌||◌, not,
  if◌then◌else◌, ltb, leb, ◌==◌, length, all,
}
use dilu_go_kit.Base.Int.{ℤ, pos, negsuc, ltb_ℤ, positive_or}
use dilu_go_kit.Base.Result.{Result, ok, err, ◌>>=◌}
use dilu_go_kit.Base.Text.{
  Text, beq, codes, len, trim_space, to_lower, contains, has_control, has_prefix, drop_prefix,
}
use dilu_go_kit.Registry.{Service}
use dilu_go_kit.Registry.Filter.{meta_value}

-- The errors of validateService by the check that failed.
pub data Invalid : Type 0 where
  name version instance_id : Invalid
  address host_port no_port port : Text → Invalid
  too_many_metadata metadata : Invalid

-- validateServiceName
unfoldable pub validate_service_name : Text → Result Invalid (Unit {0})
validate_service_name n =
    if beq n [] || ltb 128 (len n) || contains b'/' n || has_control n then err name else ok tt

abbrev pub version_check : Text → Result Invalid (Unit {0})
version_check v = if ltb 128 (len v) || has_control v then err version else ok tt

abbrev pub instance_check : Text → Result Invalid (Unit {0})
instance_check id =
    if beq id [] || ltb 256 (len id) || contains b'/' id || has_control id
    then err instance_id
    else ok tt

abbrev pub entry_ok : Text × Text → Bool
entry_ok (k, v) = not (beq k [] || ltb 128 (len k) || ltb 1024 (len v) || has_control (k ++ v))

abbrev pub metadata_check : Option (List (Text × Text)) → Result Invalid (Unit {0})
metadata_check none = ok tt
metadata_check (some m) =
    if ltb 128 (length m)
    then err too_many_metadata
    else if all entry_ok m
    then ok tt
    else err metadata

abbrev pub in_port_range : Option ℤ → Bool
in_port_range none = false
in_port_range (some (pos n)) = leb 1 n && leb n 65535
in_port_range (some (negsuc n)) = false

module _ (split_port : Text → Option Text) (atoi : Text → Option ℤ) where
  abbrev pub port_check : Text → Option Text → Result Invalid (Unit {0})
  port_check addr none = err (host_port addr)
  port_check addr (some p) =
      if beq p []
      then err (no_port addr)
      else if in_port_range (atoi p)
      then ok tt
      else err (port p)

  -- validateServiceAddr
  unfoldable pub validate_service_addr : Text → Result Invalid (Unit {0})
  validate_service_addr addr =
      if beq addr [] || ltb 256 (len addr) || has_control addr
      then err (address addr)
      else port_check addr (split_port addr)

  abbrev pub grpc_check : Text → Result Invalid (Unit {0})
  grpc_check addr = if beq addr [] then ok tt else validate_service_addr addr

  -- validateService
  unfoldable pub validate_service : Service → Result Invalid (Unit {0})
  unfolding validate_service_name validate_service_addr
  validate_service s = validate_service_name s.name >>= λ _. version_check s.version >>= λ _.
      instance_check s.instance_id >>= λ _.
      validate_service_addr s.addr >>= λ _. grpc_check s.grpc_addr >>= λ _. metadata_check s.meta

-- serviceKey
unfoldable pub service_key : (prefix name instance_id : Text) → Text
service_key prefix n id = prefix ++ (n ++ b'/' ∷ id)

-- servicePrefixKey
unfoldable pub service_prefix_key : (prefix name : Text) → Text
service_prefix_key prefix n = prefix ++ (n ++ b'/' ∷ [])

-- serviceInstanceFromKey; `none` is the result false.
unfoldable pub service_instance_from_key : (prefix key : Text) → Option Text
service_instance_from_key prefix key =
    let id = drop_prefix prefix key in
    if beq prefix [] || not (has_prefix prefix key)
    then none
    else if beq id [] || contains b'/' id || has_control id || ltb 256 (len id)
    then none
    else some id

-- unmarshalService on a record that json.Unmarshal decoded without an error.
abbrev pub with_legacy : Service → Option (List (Text × Text)) → Service
with_legacy s none = s
with_legacy s (some m) =
    if beq (trim_space s.version) []
    then record s { version = trim_space (meta_value (codes "version") (some m)) }
    else s

unfoldable pub unmarshaled : Service → Service
unmarshaled s = with_legacy s s.meta
