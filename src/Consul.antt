-- ===== src/Consul.antt =====
-- contrib/registry/consul/registry.go: what is registered, and what is read back. An entry is a
-- *consul.ServiceEntry, as far as it is read; the order of its metadata is that of `range`.
pub mod Fields
pub mod Watch
pub mod Registration
use dilu_go_kit.Base.{
  ℕ, ◌/◌, ◌*◌, List, [], ◌∷◌, ◌++◌, Option, none, some, Bool, true, false, ◌&&◌, not, if◌then◌else◌,
  ltb, select,
}
use dilu_go_kit.Base.Int.{ℤ}
use dilu_go_kit.Base.Result.{Result, ok, err}
use dilu_go_kit.Base.Text.{Text, beq, codes}
use dilu_go_kit.Base.Dict.{insert}
use dilu_go_kit.Registry.{Service}
use dilu_go_kit.Registry.Keys.{validate_service}

pub record Entry : Type 0 where
  pub service : Text
  pub id : Text
  pub address : Text
  pub port : ℤ
  pub meta : List (Text × Text)

-- The functions of Go's library: net.JoinHostPort of a host and a number, time.Parse of RFC 3339
-- and Format, net.SplitHostPort and strconv.Atoi.
pub record Library : Type 0 where
  pub join_host_port : Text → ℤ → Text
  pub parse_time : Text → Option ℕ
  pub format_time : ℕ → Text
  pub split_port : Text → Option Text
  pub atoi : Text → Option ℤ

abbrev pub put_meta : Text → Text → Option (List (Text × Text)) → Option (List (Text × Text))
put_meta k v none = some ((k, v) ∷ [])
put_meta k v (some m) = some (insert k v m)

abbrev pub set_time : Option ℕ → Service → Service
set_time none svc = svc
set_time (some t) svc = record svc { register_at = t }

abbrev pub is_ok {ℓ κ} : {E : Type ℓ} {A : Type κ} → Result E A → Bool
is_ok (ok a) = true
is_ok (err e) = false

-- consulRefreshInterval, in nanoseconds, of a lifetime in seconds
unfoldable pub consul_refresh_interval : ℕ → ℕ
consul_refresh_interval ttl =
    let interval = ttl / 3 * 1_000_000_000 in
    if ltb interval 1_000_000_000 then 1_000_000_000 else interval

module _ (lib : Library) where
  -- The switch over the keys of the metadata.
  unfoldable pub set_field : Text → Text → Service → Service
  set_field k v svc =
      if beq k (codes "grpc_addr")
      then record svc { grpc_addr = v }
      else if beq k (codes "register_at")
      then set_time (lib.parse_time v) svc
      else record svc {
        meta = put_meta k v svc.meta;
        version = if beq k (codes "version") then v else svc.version;
      }

  unfoldable pub with_meta : List (Text × Text) → Service → Service
  unfolding set_field
  with_meta [] svc = svc
  with_meta ((k, v) ∷ m) svc = with_meta m (set_field k v svc)

  unfoldable pub of_entry : Entry → Service
  unfolding with_meta
  of_entry e = with_meta e.meta (record {
    name = e.service;
    version = [];
    instance_id = e.id;
    addr = lib.join_host_port e.address e.port;
    grpc_addr = [];
    meta = some [];
    register_at = 0;
  })

  abbrev pub is_usable : Text → Service → Bool
  unfolding validate_service
  is_usable name svc = beq svc.name name && is_ok (validate_service lib.split_port lib.atoi svc)

  -- The services of a reply that are listed: discover, and the loop of Watch.
  unfoldable pub services_of : Text → List Entry → List Service
  unfolding is_usable of_entry
  services_of name [] = []
  services_of name (e ∷ es) =
      let rest = services_of name es in
      if is_usable name (of_entry e) then of_entry e ∷ rest else rest
