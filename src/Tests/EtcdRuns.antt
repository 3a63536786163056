-- ===== src/Tests/EtcdRuns.antt =====
-- Two sessions of a watch in etcd, the first one cut off.
use dilu_go_kit.Base.{◌≡◌, refl, List, [], ◌∷◌, none, some, All}
use dilu_go_kit.Base.Int.{pos}
use dilu_go_kit.Base.Text.{Text, beq, codes, len, contains, has_control, has_prefix, drop_prefix}
use dilu_go_kit.Base.Dict.{lookup}
use dilu_go_kit.Registry.{Service, zero_service}
use dilu_go_kit.Registry.Services.{last_with}
use dilu_go_kit.Registry.Events.{receive_all}
use dilu_go_kit.Registry.Keys.{
  service_instance_from_key, unmarshaled, validate_service, validate_service_name,
  validate_service_addr,
}
use dilu_go_kit.Etcd.{Library, services_of, read_kv}
use dilu_go_kit.Etcd.Watch.{watch}
use dilu_go_kit.Etcd.Watch.Changes.{written, deleted}
use dilu_go_kit.Etcd.Watch.View.{
  Period, session_of, delivered, store_after, IsReadable, watch_discovers,
}
use dilu_go_kit.Base.{map}

abbrev service : Text → Service
service id = record zero_service { name = codes "api"; instance_id = id; addr = codes "h:1" }

-- A value is the identifier of its service.
abbrev library : Library
library = record {
  decode = λ v. some (service v);
  split_port = λ a. some (codes "1");
  atoi = λ s. some (pos 1);
}

abbrev prefix : Text
prefix = codes "/api/"

abbrev name : Text
name = codes "api"

abbrev sessions : List Period
sessions =
    record {
      snapshot = (codes "/api/a", codes "a") ∷ [];
      responses = some (written (codes "/api/b") (codes "b") ∷ []) ∷ none ∷ [];
    }
    ∷ record {
      snapshot = (codes "/api/a", codes "a") ∷ (codes "/api/c", codes "c") ∷ [];
      responses = some (deleted (codes "/api/a") (some (codes "a")) ∷ []) ∷ [];
    }
    ∷ []

readable : All (IsReadable library prefix name) sessions
unfolding delivered read_kv service_instance_from_key unmarshaled validate_service
    validate_service_name validate_service_addr beq len contains has_control has_prefix drop_prefix
readable = (((refl, tt), ((λ h. refl), tt)), (((refl, (refl, tt)), (tt, tt)), tt))

watch_discovers_example :
    lookup (codes "c") (receive_all (watch library prefix name [] (map session_of sessions)).0 [])
    ≡ last_with (codes "c") (services_of library prefix name (store_after [] sessions))
watch_discovers_example = watch_discovers library prefix name sessions readable (codes "c")
