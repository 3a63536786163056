-- ===== src/Etcd/Watch/Changes.antt =====
-- What one change of the store does to a receiver of the events of Watch.
use dilu_go_kit.Base.{
  ◌≡◌, refl, sym, ap, ◌∙◌, List, [], ◌∷◌, Option, none, some, true, if◌then◌else◌, arith,
}
use dilu_go_kit.Base.Text.{Text}
use dilu_go_kit.Base.Text.Sorting.{IsDistinct}
use dilu_go_kit.Base.Dict.{
  lookup, insert, remove, keys, lookup-insert, lookup-remove, is_some, insert-IsDistinct,
  remove-IsDistinct,
}
use dilu_go_kit.Registry.{Service}
use dilu_go_kit.Registry.Events.{Event, Known, receive}
use dilu_go_kit.Registry.Keys.{service_instance_from_key}
use dilu_go_kit.Etcd.{Library, Kvs, read_kv}
use dilu_go_kit.Etcd.Watch.{
  EtcdEvent, event_put, event_delete, etcd_event, put_event, key_event, delete_event,
}
use dilu_go_kit.Etcd.Store.{is_id, keyed, read_id, service_at, service_at-insert, service_at-remove}

-- What happens to the store: a write, and a deletion, told with or without the former value.
pub data Change : Type 0 where
  written : (key value : Text) → Change
  deleted : (key : Text) → Option Text → Change

abbrev pub at_key : Text → Option Text → Option (Text × Text)
at_key k none = none
at_key k (some v) = some (k, v)

abbrev pub event_of : Change → EtcdEvent
event_of (written k v) = event_put (some (k, v))
event_of (deleted k prev) = event_delete (some (k, [])) (at_key k prev)

abbrev pub change : Change → Kvs → Kvs
change (written k v) store = insert k v store
change (deleted k prev) store = remove k store

-- A value under a key of the service that is one of its services.
abbrev pub Readable : Library → (prefix name : Text) → Change → Type 0
Readable lib prefix name (written k v) =
    is_some (service_instance_from_key prefix k) ≡ true
    → is_some (read_kv lib prefix name k v) ≡ true
Readable lib prefix name (deleted k prev) = Unit {0}

unfoldable pub change_all : List Change → Kvs → Kvs
change_all [] store = store
change_all (c ∷ cs) store = change_all cs (change c store)

pub change_all-IsDistinct :
    (cs : List Change) (store : Kvs)
    → IsDistinct (keys store)
    → IsDistinct (keys (change_all cs store))
unfolding change_all
change_all-IsDistinct [] store d = d
change_all-IsDistinct (written k v ∷ cs) store d =
    change_all-IsDistinct cs (insert k v store) (insert-IsDistinct k v store d)
change_all-IsDistinct (deleted k prev ∷ cs) store d =
    change_all-IsDistinct cs (remove k store) (remove-IsDistinct k store d)

unfoldable pub receive_event : Option Event → Known → Known
receive_event none view = view
receive_event (some e) view = receive e view

module _ (lib : Library) (prefix name : Text) where
  -- A write moves a view as it moves the store.
  put_view :
      (j k v : Text) (o : Option Service) (view : Known) (store : Kvs)
      → read_kv lib prefix name k v ≡ o
      → (is_some (service_instance_from_key prefix k) ≡ true → is_some o ≡ true)
      → lookup j view ≡ service_at lib prefix name j store
      → lookup j (receive_event (put_event o) view)
        ≡ (if keyed lib prefix name j k then o else service_at lib prefix name j store)
  unfolding receive_event
  put_view j k v none view store e readable agree = ground (arith, readable, agree)
  put_view j k v (some svc) view store e readable agree =
      ground (
        arith,
        read_id lib prefix name j k v svc e,
        lookup-insert svc.instance_id j svc view,
        agree,
      )

  key_view :
      (j : Text) (o : Option Text) (view : Known)
      → lookup j (receive_event (key_event lib prefix name o) view)
        ≡ (if is_id j o then none else lookup j view)
  unfolding receive_event
  key_view j none view = refl
  key_view j (some id) view = lookup-remove id j view

  former_view :
      (j k v : Text) (o : Option Service) (view : Known)
      → read_kv lib prefix name k v ≡ o
      → lookup j (receive_event (delete_event lib prefix name o (some (k, []))) view)
        ≡ (if keyed lib prefix name j k then none else lookup j view)
  unfolding receive_event
  former_view j k v none view e = key_view j (service_instance_from_key prefix k) view
  former_view j k v (some svc) view e =
      ground (arith, read_id lib prefix name j k v svc e, lookup-remove svc.instance_id j view)

  -- A deletion, too, whatever etcd tells of the former value.
  delete_view :
      (j k : Text) (v : Option Text) (view : Known)
      → lookup j (receive_event (etcd_event lib prefix name (event_of (deleted k v))) view)
        ≡ (if keyed lib prefix name j k then none else lookup j view)
  unfolding etcd_event
  delete_view j k none view = key_view j (service_instance_from_key prefix k) view
  delete_view j k (some v) view = former_view j k v (read_kv lib prefix name k v) view refl

  pub event_view :
      (j : Text) (c : Change) (view : Known) (store : Kvs)
      → Readable lib prefix name c
      → lookup j view ≡ service_at lib prefix name j store
      → lookup j (receive_event (etcd_event lib prefix name (event_of c)) view)
        ≡ service_at lib prefix name j (change c store)
  unfolding etcd_event
  event_view j (written k v) view store readable agree =
      put_view j k v (read_kv lib prefix name k v) view store refl readable agree
      ∙ sym (service_at-insert lib prefix name j k v store)
  event_view j (deleted k v) view store readable agree =
      delete_view j k v view
      ∙ ap (λ o. if keyed lib prefix name j k then none else o) agree
      ∙ sym (service_at-remove lib prefix name j k store)
