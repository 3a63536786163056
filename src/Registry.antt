-- ===== src/Registry.antt =====
-- registry/registry.go: the service record and its lists. time.Time is a number of nanoseconds.
pub mod Filter
pub mod Services
pub mod Events
pub mod Upstream
pub mod Resolver
pub mod Keys
use dilu_go_kit.Base.{ℕ, List, [], ◌∷◌, Option, none, some, Bool, true, false, map, if◌then◌else◌}
use dilu_go_kit.Base.Text.{Text, beq}
use dilu_go_kit.Base.Text.Sorting.{sort}
use dilu_go_kit.Base.Dict.{lookup, insert, keys}

-- A nil Meta is `none`.
pub record Service : Type 0 where
  pub name : Text
  pub version : Text
  pub instance_id : Text
  pub addr : Text
  pub grpc_addr : Text
  pub meta : Option (List (Text × Text))
  pub register_at : ℕ

-- `byID[svc.InstanceID] = svc` for each service.
unfoldable pub index_from : List (Text × Service) → List Service → List (Text × Service)
index_from m [] = m
index_from m (s ∷ ss) = index_from (insert s.instance_id s m) ss

-- Service{}
abbrev pub zero_service : Service
zero_service = record {
  name = [];
  version = [];
  instance_id = [];
  addr = [];
  grpc_addr = [];
  meta = none;
  register_at = 0;
}

abbrev pub or_zero : Option Service → Service
or_zero none = zero_service
or_zero (some s) = s

-- `for _, id := range ids { out = append(out, services[id]) }`
unfoldable pub pick : List (Text × Service) → List Text → List Service
pick m [] = []
pick m (id ∷ ids) = or_zero (lookup id m) ∷ pick m ids

-- mapServices. cloneService copies the metadata, which the model shares safely.
unfoldable pub map_services : List (Text × Service) → List Service
unfolding sort pick
map_services m = pick m (sort (keys m))

-- normalizeServices
unfoldable pub normalize_services : List Service → List Service
unfolding index_from map_services
normalize_services ss = map_services (index_from [] ss)
