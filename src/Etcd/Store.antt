-- ===== src/Etcd/Store.antt =====
-- The services that a store of keys and values has, read key by key.
use dilu_go_kit.Base.{
  ◌≡◌, refl, sym, ap, ◌∙◌, List, [], ◌∷◌, ◌++◌, Option, none, some, Bool, true, false,
  if◌then◌else◌, arith,
}
use dilu_go_kit.Base.Text.{Text, beq, beq_iff}
use dilu_go_kit.Base.Text.Sorting.{has, IsDistinct}
use dilu_go_kit.Base.Dict.{insert, remove, keys, or_else}
use dilu_go_kit.Registry.{Service}
use dilu_go_kit.Registry.Services.{last_with}
use dilu_go_kit.Registry.Keys.{service_instance_from_key}
use dilu_go_kit.Registry.Keys.RoundTrip.{key_of_instance}
use dilu_go_kit.Etcd.{Library, Kvs, unmarshal, checked, read_at, read_kv, services_of, add_service}

join :
    (b : Bool) (o at last : Option Service)
    → at ≡ last
    → (b ≡ true → at ≡ none)
    → (if b then o else at) ≡ (if b then or_else last o else last)
join true o at last e absent = ap (λ l. or_else l o) (sym (absent refl) ∙ e)
join false o at last e absent = e

-- The services that the store has, by their identifiers.
abbrev pub is_id : Text → Option Text → Bool
is_id j none = false
is_id j (some id) = beq id j

module _ (lib : Library) (prefix name : Text) where
  checked-id :
      (id : Text) (o : Option Service) (svc : Service)
      → checked lib name id o ≡ some svc
      → svc.instance_id ≡ id
  checked-id id none svc e = cc
  checked-id id (some s) svc e = ground (arith, e, beq_iff s.instance_id id)

  read_at-id :
      (o : Option Text) (v : Text) (svc : Service)
      → read_at lib name o v ≡ some svc
      → o ≡ some svc.instance_id
  read_at-id none v svc e = cc
  read_at-id (some id) v svc e = ap some (sym (checked-id id (unmarshal lib v) svc e))

  -- A key that is read has the identifier of its service.
  read_kv-id :
      (k v : Text) (svc : Service)
      → read_kv lib prefix name k v ≡ some svc
      → service_instance_from_key prefix k ≡ some svc.instance_id
  unfolding read_kv
  read_kv-id k v svc e = read_at-id (service_instance_from_key prefix k) v svc e

  -- Whether a key has this identifier.
  abbrev pub keyed : Text → Text → Bool
  keyed j k = is_id j (service_instance_from_key prefix k)

  is_id-some : (j : Text) (o : Option Text) → is_id j o ≡ true → o ≡ some j
  is_id-some j none h = cc
  is_id-some j (some id) h = ap some ((beq_iff id j).0 h)

  keyed_key : (j k : Text) → keyed j k ≡ true → k ≡ prefix ++ j
  keyed_key j k h = key_of_instance prefix k j (is_id-some j (service_instance_from_key prefix k) h)

  keyed_same : (j k l : Text) → keyed j k ≡ true → keyed j l ≡ true → beq k l ≡ true
  keyed_same j k l h i = (beq_iff k l).1 (keyed_key j k h ∙ sym (keyed_key j l i))

  pub read_id :
      (j k v : Text) (svc : Service)
      → read_kv lib prefix name k v ≡ some svc
      → keyed j k ≡ beq svc.instance_id j
  read_id j k v svc e = ap (is_id j) (read_kv-id k v svc e)

  -- The service with an identifier, read at its key.
  unfoldable pub service_at : Text → Kvs → Option Service
  service_at j [] = none
  service_at j ((k, v) ∷ store) =
      if keyed j k then read_kv lib prefix name k v else service_at j store

  pub service_at-insert :
      (j k v : Text) (store : Kvs)
      → service_at j (insert k v store)
        ≡ (if keyed j k then read_kv lib prefix name k v else service_at j store)
  unfolding service_at insert
  service_at-insert j k v [] = refl
  service_at-insert j k v ((l, w) ∷ store) =
      ground (arith, service_at-insert j k v store, keyed_same j k l, beq_iff l k, beq_iff k l)

  pub service_at-remove :
      (j k : Text) (store : Kvs)
      → service_at j (remove k store) ≡ (if keyed j k then none else service_at j store)
  unfolding service_at remove
  service_at-remove j k [] = ground arith
  service_at-remove j k ((l, w) ∷ store) =
      ground (arith, service_at-remove j k store, keyed_same j k l, beq_iff l k, beq_iff k l)

  service_at_absent :
      (j k : Text) (store : Kvs)
      → keyed j k ≡ true
      → has k (keys store) ≡ false
      → service_at j store ≡ none
  unfolding service_at
  service_at_absent j k [] h apart = refl
  service_at_absent j k ((l, w) ∷ store) h apart =
      ground
        (arith, h, apart, service_at_absent j k store, keyed_same j k l, beq_iff l k, beq_iff k l)

  last_with-add :
      (j k v : Text) (o : Option Service) (svcs : List Service)
      → read_kv lib prefix name k v ≡ o
      → last_with j (add_service o svcs)
        ≡ (if keyed j k then or_else (last_with j svcs) o else last_with j svcs)
  unfolding last_with
  last_with-add j k v none svcs e = ground (arith)
  last_with-add j k v (some svc) svcs e = ground (arith, read_id j k v svc e)

  pub service_at_lem :
      (j : Text) (store : Kvs)
      → IsDistinct (keys store)
      → service_at j store ≡ last_with j (services_of lib prefix name store)
  unfolding service_at services_of last_with
  service_at_lem j [] d = refl
  service_at_lem j ((k, v) ∷ store) (d, ds) =
      let read = read_kv lib prefix name k v in
      let svcs = services_of lib prefix name store in
      join (keyed j k) read (service_at j store) (last_with j svcs) (service_at_lem j store ds)
        (λ h. service_at_absent j k store h d)
      ∙ sym (last_with-add j k v read svcs refl)
