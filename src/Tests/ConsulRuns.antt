-- ===== src/Tests/ConsulRuns.antt =====
-- A service that comes, changes and goes, and one that is registered and read back.
use dilu_go_kit.Base.{
  ◌≡◌, refl, ap, List, [], ◌∷◌, Option, none, some, Bool, true, false, ◌&&◌, ◌==◌, All, arith,
}
use dilu_go_kit.Base.Int.{pos}
use dilu_go_kit.Base.Text.{Text, beq, beq_iff, codes, len, contains, has_control}
use dilu_go_kit.Base.Dict.{lookup, insert}
use dilu_go_kit.Registry.{Service, index_from}
use dilu_go_kit.Registry.Services.{last_with}
use dilu_go_kit.Registry.Filter.{meta_value}
use dilu_go_kit.Registry.Keys.{validate_service, validate_service_name, validate_service_addr}
use dilu_go_kit.Consul.{Library, Entry, services_of, of_entry, with_meta, set_field}
use dilu_go_kit.Registry.Events.{Event, put, delete, receive_all}
use dilu_go_kit.Consul.Watch.{watch, rounds, compare_reply, put_changed, delete_gone}
use dilu_go_kit.Consul.Watch.View.{latest, Apart, watch_view}
use dilu_go_kit.Consul.Registration.{registration}
use dilu_go_kit.Consul.Fields.{is_reserved}
use dilu_go_kit.Consul.Registration.RoundTrip.{set_or_meta, override, registered_service}

-- Addresses without a port, and times of no text.
abbrev library : Library
library = record {
  join_host_port = λ host port. host;
  parse_time = λ t. none;
  format_time = λ t. codes "now";
  split_port = λ a. some (codes "80");
  atoi = λ p. some (pos 80);
}

abbrev same_meta : List (Text × Text) → List (Text × Text) → Bool
same_meta [] [] = true
same_meta [] (e ∷ es) = false
same_meta (d ∷ ds) [] = false
same_meta ((k, v) ∷ ds) ((j, w) ∷ es) = beq k j && beq v w && same_meta ds es

same_meta-eq : (a b : List (Text × Text)) → same_meta a b ≡ true → a ≡ b
same_meta-eq [] [] h = refl
same_meta-eq [] (e ∷ es) h = cc
same_meta-eq (d ∷ ds) [] h = cc
same_meta-eq ((k, v) ∷ ds) ((j, w) ∷ es) h =
    ground (arith, beq_iff k j, beq_iff v w, same_meta-eq ds es)

abbrev same_optional : Option (List (Text × Text)) → Option (List (Text × Text)) → Bool
same_optional none none = true
same_optional none (some b) = false
same_optional (some a) none = false
same_optional (some a) (some b) = same_meta a b

same_optional-eq : (a b : Option (List (Text × Text))) → same_optional a b ≡ true → a ≡ b
same_optional-eq none none h = refl
same_optional-eq none (some b) h = cc
same_optional-eq (some a) none h = cc
same_optional-eq (some a) (some b) h = ap some (same_meta-eq a b h)

abbrev same : Service → Service → Bool
same a b =
    beq a.name b.name
    && beq a.version b.version
    && beq a.instance_id b.instance_id
    && beq a.addr b.addr
    && beq a.grpc_addr b.grpc_addr
    && same_optional a.meta b.meta
    && a.register_at == b.register_at

same-eq : (a b : Service) → same a b ≡ true → a ≡ b
same-eq a b h =
    let name : a.name ≡ b.name = ground (arith, beq_iff a.name b.name) in
    let version : a.version ≡ b.version = ground (arith, beq_iff a.version b.version) in
    let id : a.instance_id ≡ b.instance_id = ground (arith, beq_iff a.instance_id b.instance_id) in
    let addr : a.addr ≡ b.addr = ground (arith, beq_iff a.addr b.addr) in
    let grpc : a.grpc_addr ≡ b.grpc_addr = ground (arith, beq_iff a.grpc_addr b.grpc_addr) in
    let meta : a.meta ≡ b.meta = ground (arith, same_optional-eq a.meta b.meta) in
    let time : a.register_at ≡ b.register_at = ground arith in
    λ i. record {
      name = name i;
      version = version i;
      instance_id = id i;
      addr = addr i;
      grpc_addr = grpc i;
      meta = meta i;
      register_at = time i;
    }

abbrev entry : Text → Text → Entry
entry id version = record {
  service = codes "api";
  id = id;
  address = codes "h";
  port = pos 80;
  meta = (codes "version", version) ∷ [];
}

-- Two services; the second leaves, and a query fails.
abbrev first : List Entry
first = entry (codes "a") (codes "1") ∷ entry (codes "b") (codes "1") ∷ []

abbrev replies : List (Option (List Entry))
replies = some (entry (codes "a") (codes "2") ∷ []) ∷ none ∷ []

abbrev ids_of : List Event → List (Text × Bool)
ids_of [] = []
ids_of (put svc ∷ es) = (svc.instance_id, true) ∷ ids_of es
ids_of (delete svc ∷ es) = (svc.instance_id, false) ∷ ids_of es

events :
    ids_of (watch library same (codes "api") first replies).0
    ≡ (codes "a", true) ∷ (codes "b", true) ∷ (codes "a", true) ∷ (codes "b", false) ∷ []
unfolding watch rounds compare_reply put_changed delete_gone services_of of_entry with_meta
    set_field index_from lookup insert beq len contains has_control validate_service
    validate_service_name validate_service_addr
events = refl

replies-Apart : All (Apart library (codes "api")) replies
unfolding services_of of_entry with_meta set_field insert beq len contains has_control
    validate_service validate_service_name validate_service_addr
replies-Apart = ((refl, tt), (tt, tt))

watch_view_example :
    lookup (codes "b") (receive_all (watch library same (codes "api") first replies).0 [])
    ≡ last_with (codes "b") (services_of library (codes "api") (latest first replies))
watch_view_example =
    watch_view same same-eq library (codes "api") first replies replies-Apart (codes "b")

abbrev service : Service
service = record {
  name = codes "api";
  version = codes "2";
  instance_id = codes "a";
  addr = codes "h:80";
  grpc_addr = codes "h:81";
  meta = some ((codes "zone", codes "z") ∷ []);
  register_at = 7;
}

registered_service_example :
    let got = of_entry library (registration library (codes "h") (pos 80) service) in
    (got.name ≡ codes "api")
    × (got.instance_id ≡ codes "a")
    × (got.addr ≡ codes "h")
    × (got.version ≡ set_or_meta (codes "2") (codes "version") service)
    × (got.grpc_addr ≡ set_or_meta (codes "h:81") (codes "grpc_addr") service)
    × ((j : Text)
        → is_reserved j ≡ false
        → meta_value j got.meta
          ≡ override (codes "version") (codes "2") j (meta_value j service.meta))
registered_service_example = registered_service library service (codes "h") (pos 80) (refl, tt)
