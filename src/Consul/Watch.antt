-- ===== src/Consul/Watch.antt =====
-- contrib/registry/consul/registry.go: Watch, which turns the replies of blocking queries into
-- events. `same` is reflect.DeepEqual on services, whose metadata is a list in one
-- fixed order of its keys. A reply is `none` where the query failed.
pub mod View
use dilu_go_kit.Base.{
  List, [], ◌∷◌, ◌++◌, Option, none, some, Bool, true, false, ◌||◌, not, if◌then◌else◌, select,
}
use dilu_go_kit.Base.Text.{Text}
use dilu_go_kit.Base.Text.Sorting.{has}
use dilu_go_kit.Base.Dict.{lookup, insert, keys}
use dilu_go_kit.Registry.{Service, index_from, zero_service}
use dilu_go_kit.Registry.Events.{Event, put, delete, Known, put_all}
use dilu_go_kit.Consul.{Library, Entry, services_of}

abbrev pub is_changed : (Service → Service → Bool) → Option Service → Service → Bool
is_changed same none svc = true
is_changed same (some previous) svc = not (same previous svc)

-- The events for what is new or has changed.
unfoldable pub put_changed : (Service → Service → Bool) → Known → List Service → List Event
unfolding lookup
put_changed same known [] = []
put_changed same known (svc ∷ svcs) =
    let rest = put_changed same known svcs in
    if is_changed same (lookup svc.instance_id known) svc then put svc ∷ rest else rest

-- The events for what is not seen any more.
unfoldable pub delete_gone : (name : Text) → List Text → List Event
delete_gone name [] = []
delete_gone name (id ∷ ids) =
    delete (record zero_service { name = name; instance_id = id }) ∷ delete_gone name ids

abbrev pub gone : Known → Known → List Text
gone known seen = select (λ id. not (has id (keys seen))) (keys known)

-- One round after the query: the events, and what is known from then on.
unfoldable pub compare_reply :
    (Service → Service → Bool) → (name : Text) → Known → List Service → List Event × Known
unfolding put_changed delete_gone index_from
compare_reply same name known svcs =
    let seen = index_from [] svcs in
    (put_changed same known svcs ++ delete_gone name (gone known seen), seen)

module _ (lib : Library) (same : Service → Service → Bool) (name : Text) where
  unfoldable pub rounds : Known → List (Option (List Entry)) → List Event × Known
  unfolding compare_reply services_of
  rounds known [] = ([], known)
  rounds known (none ∷ replies) = rounds known replies
  rounds known (some entries ∷ replies) =
      let (events, seen) = compare_reply same name known (services_of lib name entries) in
      let (later, last) = rounds seen replies in (events ++ later, last)

  -- Watch, after the first query: its events and what it knows in the end.
  unfoldable pub watch : List Entry → List (Option (List Entry)) → List Event × Known
  unfolding rounds services_of index_from
  watch first replies =
      let current = services_of lib name first in
      let (later, last) = rounds (index_from [] current) replies in (put_all current ++ later, last)
