-- ===== src/Etcd.antt =====
-- contrib/registry/etcd/registry.go: what is read of the keys and values of a reply.
pub mod Store
pub mod Watch
pub mod Leases
use dilu_go_kit.Base.{List, [], ◌∷◌, Option, none, some, Bool, true, false, ◌&&◌, if◌then◌else◌}
use dilu_go_kit.Base.Int.{ℤ}
use dilu_go_kit.Base.Result.{Result, ok, err, ◌>>=◌}
use dilu_go_kit.Base.Text.{Text, beq, trim_space}
use dilu_go_kit.Registry.{Service}
use dilu_go_kit.Registry.Keys.{
  Invalid, validate_service_name, validate_service, service_prefix_key, service_instance_from_key,
  unmarshaled,
}
use dilu_go_kit.Consul.{is_ok}

-- json.Unmarshal of a Service, `none` with an error; net.SplitHostPort and strconv.Atoi.
pub record Library : Type 0 where
  pub decode : Text → Option Service
  pub split_port : Text → Option Text
  pub atoi : Text → Option ℤ

-- The keys of a reply with their values: resp.Kvs.
abbrev pub Kvs : Type 0
Kvs = List (Text × Text)

pub data DiscoverError : Type 0 where
  invalid : Invalid → DiscoverError
  get_failed : DiscoverError

abbrev pub add_service : Option Service → List Service → List Service
add_service none svcs = svcs
add_service (some svc) svcs = svc ∷ svcs

module _ (lib : Library) where
  abbrev pub unmarshal : Text → Option Service
  unmarshal value = elim (lib.decode value) [ none ↦ none | some svc ↦ some (unmarshaled svc) ]

  -- The checks that Discover, Watch and etcdEvent make of a key and its value.
  abbrev pub is_listed : (name id : Text) → Service → Bool
  is_listed name id svc =
      beq svc.name name
      && beq svc.instance_id id
      && is_ok (validate_service lib.split_port lib.atoi svc)

  abbrev pub checked : (name id : Text) → Option Service → Option Service
  checked name id none = none
  checked name id (some svc) = if is_listed name id svc then some svc else none

  abbrev pub read_at : (name : Text) → Option Text → Text → Option Service
  read_at name none value = none
  read_at name (some id) value = checked name id (unmarshal value)

  unfoldable pub read_kv : (prefix name key value : Text) → Option Service
  unfolding service_instance_from_key unmarshaled validate_service
  read_kv prefix name key value = read_at name (service_instance_from_key prefix key) value

  unfoldable pub services_of : (prefix name : Text) → Kvs → List Service
  unfolding read_kv
  services_of prefix name [] = []
  services_of prefix name ((k, v) ∷ kvs) =
      add_service (read_kv prefix name k v) (services_of prefix name kvs)

  abbrev pub discovered : (prefix name : Text) → Option Kvs → Result DiscoverError (List Service)
  discovered prefix name none = err get_failed
  discovered prefix name (some kvs) = ok (services_of (service_prefix_key prefix name) name kvs)

  abbrev pub refused : Result Invalid (Unit {0}) → Result DiscoverError (Unit {0})
  refused (ok u) = ok u
  refused (err e) = err (invalid e)

  -- Discover, with the reply of etcd, `none` where Get failed.
  unfoldable pub discover : (prefix name : Text) → Option Kvs → Result DiscoverError (List Service)
  unfolding services_of validate_service_name service_prefix_key
  discover prefix name reply =
      let n = trim_space name in
      refused (validate_service_name n) >>= λ _. discovered prefix n reply
