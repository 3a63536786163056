-- ===== src/Tests/KeyRuns.antt =====
-- Keys of two services, and a backend registered twice.
use dilu_go_kit.Base.{◌≡◌, ◌≢◌, refl, Option, none, some}
use dilu_go_kit.Base.Int.{ℤ, pos}
use dilu_go_kit.Base.Text.{Text, codes, beq, len, contains, has_control}
use dilu_go_kit.Registry.{Service, zero_service}
use dilu_go_kit.Registry.Keys.{
  validate_service, validate_service_name, validate_service_addr, service_key, service_prefix_key,
  service_instance_from_key,
}
use dilu_go_kit.Registry.Keys.RoundTrip.{IsValid, service_keys}

-- Every address has the port 80 here.
abbrev split_port : Text → Option Text
split_port addr = some (codes "80")

abbrev atoi : Text → Option ℤ
atoi s = some (pos 80)

abbrev service : Text → Service
service n = record zero_service { name = n; instance_id = codes "i-1"; addr = codes "10.0.0.1:80" }

user-IsValid : IsValid split_port atoi (service (codes "user"))
unfolding validate_service validate_service_name validate_service_addr beq len contains has_control
user-IsValid = refl

shop-IsValid : IsValid split_port atoi (service (codes "shop"))
unfolding validate_service validate_service_name validate_service_addr beq len contains has_control
shop-IsValid = refl

abbrev prefix : Text
prefix = codes "/mofang/services/"

service_keys_example :
    (service_instance_from_key
        (service_prefix_key prefix (codes "user"))
        (service_key prefix (codes "user") (codes "i-1"))
      ≡ some (codes "i-1"))
    × (service_key prefix (codes "user") (codes "i-1")
          ≡ service_key prefix (codes "shop") (codes "i-1")
        → (codes "user" ≡ codes "shop") × (codes "i-1" ≡ codes "i-1"))
    × (codes "user" ≢ codes "shop"
        → service_instance_from_key
            (service_prefix_key prefix (codes "user"))
            (service_key prefix (codes "shop") (codes "i-1"))
          ≡ none)
service_keys_example =
    service_keys split_port atoi prefix (service (codes "user")) (service (codes "shop"))
      user-IsValid shop-IsValid
