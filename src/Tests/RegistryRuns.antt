-- ===== src/Tests/RegistryRuns.antt =====
-- Services of a small cluster, and an outage of it.
use dilu_go_kit.Base.{◌≡◌, ◌≢◌, refl, List, [], ◌∷◌, none, some, true}
use dilu_go_kit.Base.Int.{pos}
use dilu_go_kit.Base.Text.{Text, codes}
use dilu_go_kit.Base.Text.Sorting.{IsSorted}
use dilu_go_kit.Registry.{Service, normalize_services}
use dilu_go_kit.Registry.Services.{ids_of, last_with, normalize_canonical}
use dilu_go_kit.Registry.Filter.{filter_services}
use dilu_go_kit.Registry.Upstream.{Watch, rounds}
use dilu_go_kit.Registry.Upstream.Fallback.{kept, outage_view, rounds_outage}

abbrev service : Text → Text → Service
service id version = record {
  name = codes "api";
  version = version;
  instance_id = id;
  addr = codes "http://10.0.0.1:80";
  grpc_addr = [];
  meta = none;
  register_at = 1;
}

abbrev first : Service
first = service (codes "a") (codes "v1")

abbrev second : Service
second = service (codes "b") (codes "v2")

abbrev replaced : Service
replaced = service (codes "b") (codes "v1")

abbrev listed : List Service
listed = second ∷ first ∷ replaced ∷ []

normalize_canonical_example :
    IsSorted (ids_of (normalize_services listed))
    × ((id : Text) → last_with id (normalize_services listed) ≡ last_with id listed)
    × (normalize_services listed ≡ normalize_services listed)
    × (normalize_services (normalize_services listed) ≡ normalize_services listed)
normalize_canonical_example = normalize_canonical listed listed (λ id. refl)

abbrev idle : Watch
idle = record {
  state = record { last_good = []; stale_since = none };
  last_sent = record { services = []; stale = true; stale_since = some 0 };
  expires_at = none;
}

listed-kept : kept none (some listed) ≢ []
unfolding filter_services
listed-kept e = cc

lost-kept : kept none none ≡ []
unfolding filter_services
lost-kept = refl

rounds_outage_example :
    rounds none (pos 30) idle ((some listed, 6) ∷ (none, 10) ∷ (none, 20) ∷ (none, 39) ∷ [])
    ≡ outage_view 30 (normalize_services (kept none (some listed))) 10 39
rounds_outage_example =
    rounds_outage none 30 idle (some listed) 6 none 10 ((none, 20) ∷ []) none 39 listed-kept
      lost-kept (lost-kept, tt) lost-kept
