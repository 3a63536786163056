-- ===== src/Etcd/Watch.antt =====
-- contrib/registry/etcd/registry.go: Watch. A session is a snapshot and the responses of the watch
-- that follows it, up to the one that failed or the end of the channel; a failed Get only delays the
-- next one.
pub mod Changes
pub mod Deletions
pub mod View
use dilu_go_kit.Base.{List, [], ◌∷◌, ◌++◌, Option, none, some, Bool, true, false, if◌then◌else◌}
use dilu_go_kit.Base.Text.{Text, beq}
use dilu_go_kit.Base.Text.Sorting.{has}
use dilu_go_kit.Base.Dict.{lookup, insert, remove, keys}
use dilu_go_kit.Registry.{Service, index_from, zero_service}
use dilu_go_kit.Registry.Events.{Event, put, delete, Known, put_all}
use dilu_go_kit.Registry.Keys.{service_instance_from_key}
use dilu_go_kit.Etcd.{Library, Kvs, read_kv, services_of}

-- *clientv3.Event: the fields Kv and PrevKv, nil as `none`.
pub data EtcdEvent : Type 0 where
  event_put : Option (Text × Text) → EtcdEvent
  event_delete : (kv prev_kv : Option (Text × Text)) → EtcdEvent

pub record Session : Type 0 where
  pub snapshot : Kvs
  pub responses : List (Option (List EtcdEvent))

-- The services that are known and not in the current snapshot.
unfoldable pub delete_missing : Known → (current : Known) → List Event
delete_missing [] current = []
delete_missing ((id, svc) ∷ known) current =
    let rest = delete_missing known current in
    if has id (keys current) then rest else delete svc ∷ rest

abbrev pub update : Event → Known → Known
update (put svc) known = insert svc.instance_id svc known
update (delete svc) known = remove svc.instance_id known

abbrev pub put_event : Option Service → Option Event
put_event none = none
put_event (some svc) = some (put svc)

module _ (lib : Library) (prefix name : Text) where
  -- A deletion without a former value that is usable is told by its key.
  abbrev pub key_event : Option Text → Option Event
  key_event none = none
  key_event (some id) = some (delete (record zero_service { name = name; instance_id = id }))

  abbrev pub kv_event : Option (Text × Text) → Option Event
  kv_event none = none
  kv_event (some (k, v)) = key_event (service_instance_from_key prefix k)

  abbrev pub delete_event : Option Service → Option (Text × Text) → Option Event
  delete_event (some svc) kv = some (delete svc)
  delete_event none kv = kv_event kv

  abbrev pub read_prev : Option (Text × Text) → Option Service
  read_prev none = none
  read_prev (some (k, v)) = read_kv lib prefix name k v

  -- etcdEvent
  unfoldable pub etcd_event : EtcdEvent → Option Event
  unfolding read_kv service_instance_from_key
  etcd_event (event_put none) = none
  etcd_event (event_put (some (k, v))) = put_event (read_kv lib prefix name k v)
  etcd_event (event_delete kv prev_kv) = delete_event (read_prev prev_kv) kv

  -- The events of one response.
  abbrev pub told : Option Event → List Event × Known → List Event × Known
  told none (events, last) = (events, last)
  told (some e) (events, last) = (e ∷ events, last)

  abbrev pub updated : Option Event → Known → Known
  updated none known = known
  updated (some e) known = update e known

  unfoldable pub forward : Known → List EtcdEvent → List Event × Known
  unfolding etcd_event
  forward known [] = ([], known)
  forward known (ev ∷ evs) = told (etcd_event ev) (forward (updated (etcd_event ev) known) evs)

  -- `for wresp := range wch`
  unfoldable pub follow : Known → List (Option (List EtcdEvent)) → List Event × Known
  unfolding forward
  follow known [] = ([], known)
  follow known (none ∷ responses) = ([], known)
  follow known (some evs ∷ responses) =
      let (events, known') = forward known evs in
      let (later, last) = follow known' responses in (events ++ later, last)

  abbrev pub session : Known → Session → List Event × Known
  session known s =
      let current = index_from [] (services_of lib prefix name s.snapshot) in
      let (later, last) = follow current s.responses in
      (
        put_all (services_of lib prefix name s.snapshot) ++ (delete_missing known current ++ later),
        last,
      )

  -- The loop of Watch: the events that it has sent, and what it knows.
  unfoldable pub watch : Known → List Session → List Event × Known
  unfolding follow delete_missing services_of index_from
  watch known [] = ([], known)
  watch known (s ∷ sessions) =
      let (events, known') = session known s in
      let (later, last) = watch known' sessions in (events ++ later, last)
