-- ===== src/Consul/Registration/RoundTrip.antt =====
-- A service that is registered is discovered as it was.
use dilu_go_kit.Base.{
  ◌≡◌, refl, ap, ◌∙◌, List, [], Option, none, some, false, ◌&&◌, not, if◌then◌else◌, if_cases,
  arith,
}
use dilu_go_kit.Base.Int.{ℤ}
use dilu_go_kit.Base.Text.{Text, beq, beq_iff}
use dilu_go_kit.Base.Text.Sorting.{IsDistinct}
use dilu_go_kit.Base.Dict.{lookup, keys, or_else, lookup-insert, insert-IsDistinct}
use dilu_go_kit.Registry.{Service}
use dilu_go_kit.Registry.Filter.{meta_value, or_empty}
use dilu_go_kit.Consul.{Library, of_entry}
use dilu_go_kit.Consul.Fields.{
  grpc_key, time_key, version_key, is_reserved, with_meta_fixed, with_meta_grpc, with_meta_version,
  with_meta_meta,
}
use dilu_go_kit.Consul.Registration.{insert_set, entries_of, registered_meta, registration}

-- A value, or where it is not set the one in the metadata under a key.
abbrev pub set_or_meta : Text → Text → Service → Text
set_or_meta v k svc = if beq v [] then meta_value k svc.meta else v

-- The value under the key `j`, over `rest`, where `v` stands under `k` if it is set.
abbrev pub override : (k v j rest : Text) → Text
override k v j rest = if beq k j && not (beq v []) then v else rest

lookup-insert_set :
    (k v j : Text) (m : List (Text × Text))
    → lookup j (insert_set k v m)
      ≡ (if beq v [] then lookup j m else if beq k j then some v else lookup j m)
lookup-insert_set k v j m = ground (arith, lookup-insert k j v m)

insert_set-IsDistinct :
    (k v : Text) (m : List (Text × Text))
    → IsDistinct (keys m)
    → IsDistinct (keys (insert_set k v m))
insert_set-IsDistinct k v m d =
    if_cases {A = List (Text × Text)} (λ n. IsDistinct (keys n)) (beq v []) (λ _. d)
      (λ _. insert-IsDistinct k v m d)

meta_value-entries_of :
    (j : Text) (m : Option (List (Text × Text)))
    → or_empty (lookup j (entries_of m)) ≡ meta_value j m
unfolding lookup
meta_value-entries_of j none = refl
meta_value-entries_of j (some m) = refl

insert_set_value :
    (k v j : Text) (m : List (Text × Text))
    → or_empty (lookup j (insert_set k v m)) ≡ override k v j (or_empty (lookup j m))
insert_set_value k v j m = ground (arith, lookup-insert_set k v j m)

or_empty_default : (o : Option Text) → or_empty (or_else o (some [])) ≡ or_empty o
or_empty_default none = refl
or_empty_default (some v) = refl

module _ (lib : Library) (svc : Service) where
  registered_meta-IsDistinct :
      IsDistinct (keys (entries_of svc.meta)) → IsDistinct (keys (registered_meta lib svc))
  unfolding registered_meta
  registered_meta-IsDistinct d = insert-IsDistinct time_key (lib.format_time svc.register_at) _ (
      insert_set-IsDistinct grpc_key svc.grpc_addr _
        (insert_set-IsDistinct version_key svc.version _ d))

  -- What stands in the registered metadata under a key.
  registered_lookup :
      (j : Text)
      → lookup j (registered_meta lib svc) ≡ (
          if beq time_key j
          then some (lib.format_time svc.register_at)
          else lookup j (
              insert_set grpc_key svc.grpc_addr
                (insert_set version_key svc.version (entries_of svc.meta))))
  unfolding registered_meta
  registered_lookup j = lookup-insert time_key j (lib.format_time svc.register_at) _

  -- The value that is read back under a key.
  read_back :
      (j : Text)
      → or_empty (or_else (lookup j (registered_meta lib svc)) (some [])) ≡ (
          if beq time_key j
          then lib.format_time svc.register_at
          else override grpc_key svc.grpc_addr j
              (override version_key svc.version j (meta_value j svc.meta)))
  read_back j =
      let inner = insert_set version_key svc.version (entries_of svc.meta) in
      ground (
        arith,
        or_empty_default (lookup j (registered_meta lib svc)),
        registered_lookup j,
        insert_set_value grpc_key svc.grpc_addr j inner
            ∙ ap (override grpc_key svc.grpc_addr j) (
                insert_set_value version_key svc.version j (entries_of svc.meta)
                ∙ ap (override version_key svc.version j) (meta_value-entries_of j svc.meta)),
      )

  free_key :
      (j : Text)
      → is_reserved j ≡ false
      → (if beq time_key j
          then lib.format_time svc.register_at
          else override grpc_key svc.grpc_addr j
              (override version_key svc.version j (meta_value j svc.meta)))
        ≡ override version_key svc.version j (meta_value j svc.meta)
  free_key j free =
      ground (arith, beq_iff time_key j, beq_iff grpc_key j, beq_iff j time_key, beq_iff j grpc_key)

  -- A service that Consul gives back as it was registered, with the host and the port of its address.
  -- It has the name, the identifier and the version; its gRPC address; and in its metadata under
  -- each key, but for grpc_addr and register_at, what stood there. The version and the gRPC address
  -- are taken from the metadata where the service leaves them empty, and the version is added to
  -- the metadata. The keys of the metadata are distinct.
  pub registered_service :
      (host : Text) (port : ℤ)
      → IsDistinct (keys (entries_of svc.meta))
      → let got = of_entry lib (registration lib host port svc) in
        (got.name ≡ svc.name)
        × (got.instance_id ≡ svc.instance_id)
        × (got.addr ≡ lib.join_host_port host port)
        × (got.version ≡ set_or_meta svc.version version_key svc)
        × (got.grpc_addr ≡ set_or_meta svc.grpc_addr grpc_key svc)
        × ((j : Text)
            → is_reserved j ≡ false
            → meta_value j got.meta ≡ override version_key svc.version j (meta_value j svc.meta))
  unfolding of_entry registration beq lookup
  registered_service host port d =
      let m = registered_meta lib svc in
      let d' = registered_meta-IsDistinct d in
      let base : Service = record {
        name = svc.name;
        version = [];
        instance_id = svc.instance_id;
        addr = lib.join_host_port host port;
        grpc_addr = [];
        meta = some [];
        register_at = 0;
      } in
      let (n, i, a) = with_meta_fixed lib m base in
      (
        n,
        i,
        a,
        with_meta_version lib m base d' ∙ read_back version_key ∙ ground arith,
        with_meta_grpc lib m base d' ∙ read_back grpc_key ∙ ground arith,
        λ j free. with_meta_meta lib m base j d' free ∙ read_back j ∙ free_key j free,
      )
