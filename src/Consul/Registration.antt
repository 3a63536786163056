-- ===== src/Consul/Registration.antt =====
-- contrib/registry/consul/registry.go: what Register hands to Consul, and its health check. Durations
-- are in seconds; fmt.Sprintf("%d") and the URL of the check are parameters.
pub mod RoundTrip
use dilu_go_kit.Base.{
  ℕ, List, [], ◌∷◌, ◌++◌, Option, none, some, Bool, true, false, if◌then◌else◌, ltb,
}
use dilu_go_kit.Base.Int.{ℤ}
use dilu_go_kit.Base.Text.{Text, beq, codes}
use dilu_go_kit.Base.Dict.{insert}
use dilu_go_kit.Registry.{Service}
use dilu_go_kit.Registry.Keys.Backends.{consul_check_type, effective_ttl, effective_check_path}
use dilu_go_kit.Consul.{Library, Entry}

-- `meta[k] = v` where the value is set
abbrev pub insert_set : Text → Text → List (Text × Text) → List (Text × Text)
insert_set k v m = if beq v [] then m else insert k v m

abbrev pub entries_of : Option (List (Text × Text)) → List (Text × Text)
entries_of none = []
entries_of (some m) = m

-- The metadata of the registration, at the time RegisterAt.
unfoldable pub registered_meta : Library → Service → List (Text × Text)
registered_meta lib svc = insert (codes "register_at") (lib.format_time svc.register_at) (
    insert_set (codes "grpc_addr") svc.grpc_addr
      (insert_set (codes "version") svc.version (entries_of svc.meta)))

-- The registration, with the host and the port of the address.
unfoldable pub registration : Library → (host : Text) → (port : ℤ) → Service → Entry
unfolding registered_meta
registration lib host port svc = record {
  service = svc.name;
  id = svc.instance_id;
  address = host;
  port = port;
  meta = registered_meta lib svc;
}

-- The fields of registry.Config that the check reads.
pub record CheckConfig : Type 0 where
  pub check_type : Text
  pub check_path : Text
  pub check_tls : Bool
  pub ttl : ℤ
  pub deregister_after : ℕ

-- consul.AgentServiceCheck; what is not set is empty.
pub record Check : Type 0 where
  pub id : Text
  pub deregister_after : Text
  pub http : Text
  pub interval : Text
  pub timeout : Text
  pub ttl : Text

-- minInt64
abbrev pub min_int64 : ℕ → ℕ → ℕ
min_int64 a b = if ltb a b then a else b

module _ (digits : ℕ → Text) (check_url : (scheme host path : Text) → Text) where
  -- durationSeconds
  abbrev pub seconds : ℕ → Text
  seconds n = digits n ++ codes "s"

  -- consulServiceCheck, with whether the check is a TTL; `none` is the error.
  unfoldable pub consul_service_check :
      CheckConfig → (check_id check_addr : Text) → Option (Check × Bool)
  unfolding consul_check_type effective_ttl effective_check_path
  consul_service_check cfg check_id check_addr = elim (consul_check_type cfg.check_type) [
    | none ↦ none
    | some kind ↦
        let ttl = effective_ttl cfg.ttl in
        let scheme = if cfg.check_tls then codes "https" else codes "http" in
        let after = seconds cfg.deregister_after in
        some (
          if beq kind (codes "http")
          then (
            record {
              id = check_id;
              deregister_after = after;
              http = check_url scheme check_addr (effective_check_path cfg.check_path);
              interval = seconds ttl;
              timeout = seconds (min_int64 5 ttl);
              ttl = [];
            },
            false,
          )
          else (
            record {
              id = check_id;
              deregister_after = after;
              http = [];
              interval = [];
              timeout = [];
              ttl = seconds ttl;
            },
            true,
          ))
  ]
