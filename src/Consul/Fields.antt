-- ===== src/Consul/Fields.antt =====
-- What a service takes from the metadata of its entry.
use dilu_go_kit.Base.{
  ℕ, ◌≡◌, refl, sym, subst, ◌∙◌, List, [], ◌∷◌, Option, none, some, Bool, true, false, ◌||◌,
  if◌then◌else◌, arith,
}
use dilu_go_kit.Base.Text.{Text, beq, beq_iff, codes}
use dilu_go_kit.Base.Text.Sorting.{IsDistinct}
use dilu_go_kit.Base.Dict.{lookup, keys, or_else, lookup-insert, lookup_absent}
use dilu_go_kit.Registry.{Service}
use dilu_go_kit.Registry.Filter.{meta_value, or_empty}
use dilu_go_kit.Consul.{Library, put_meta, set_time, set_field, with_meta}

abbrev pub grpc_key : Text
grpc_key = codes "grpc_addr"

abbrev pub time_key : Text
time_key = codes "register_at"

abbrev pub version_key : Text
version_key = codes "version"

-- The keys that the switch keeps out of Meta.
abbrev pub is_reserved : Text → Bool
is_reserved k = beq k grpc_key || beq k time_key

set_time_lem :
    (o : Option ℕ) (svc : Service)
    → let got = set_time o svc in
      (got.name ≡ svc.name)
      × (got.instance_id ≡ svc.instance_id)
      × (got.addr ≡ svc.addr)
      × (got.grpc_addr ≡ svc.grpc_addr)
      × (got.version ≡ svc.version)
      × (got.meta ≡ svc.meta)
set_time_lem none svc = (refl, refl, refl, refl, refl, refl)
set_time_lem (some t) svc = (refl, refl, refl, refl, refl, refl)

meta_value-put_meta :
    (k j v : Text) (m : Option (List (Text × Text)))
    → meta_value j (put_meta k v m) ≡ (if beq k j then v else meta_value j m)
unfolding lookup
meta_value-put_meta k j v none = ground arith
meta_value-put_meta k j v (some m) = ground (arith, lookup-insert k j v m)

other_key : (k a b : Text) → beq a b ≡ false → beq k a ≡ true → beq k b ≡ false
other_key k a b apart same = subst (λ c. beq c b ≡ false) (sym ((beq_iff k a).0 same)) apart

not_version : (k : Text) → is_reserved k ≡ true → beq k version_key ≡ false
unfolding beq
not_version k h =
    ground (arith, other_key k grpc_key version_key refl, other_key k time_key version_key refl)

module _ (lib : Library) (k v : Text) (svc : Service) where
  set_field_fixed :
      let got = set_field lib k v svc in
      (got.name ≡ svc.name) × (got.instance_id ≡ svc.instance_id) × (got.addr ≡ svc.addr)
  unfolding set_field
  set_field_fixed = ground (arith, set_time_lem (lib.parse_time v) svc)

  set_field_grpc : (set_field lib k v svc).grpc_addr ≡ (if beq k grpc_key then v else svc.grpc_addr)
  unfolding set_field
  set_field_grpc = ground (arith, set_time_lem (lib.parse_time v) svc)

  set_field_version :
      (set_field lib k v svc).version ≡ (if beq k version_key then v else svc.version)
  unfolding set_field
  set_field_version = ground (arith, set_time_lem (lib.parse_time v) svc, not_version k)

  set_field_meta :
      (j : Text)
      → is_reserved j ≡ false
      → meta_value j (set_field lib k v svc).meta ≡ (if beq k j then v else meta_value j svc.meta)
  unfolding set_field
  set_field_meta j free = ground (
    arith,
    set_time_lem (lib.parse_time v) svc,
    meta_value-put_meta k j v svc.meta,
    beq_iff k j,
    beq_iff k grpc_key,
    beq_iff k time_key,
  )

module _ (lib : Library) where
  pub with_meta_fixed :
      (m : List (Text × Text)) (svc : Service)
      → let got = with_meta lib m svc in
        (got.name ≡ svc.name) × (got.instance_id ≡ svc.instance_id) × (got.addr ≡ svc.addr)
  unfolding with_meta
  with_meta_fixed [] svc = (refl, refl, refl)
  with_meta_fixed ((k, v) ∷ m) svc =
      let (n, i, a) = with_meta_fixed m (set_field lib k v svc) in
      let (n', i', a') = set_field_fixed lib k v svc in (n ∙ n', i ∙ i', a ∙ a')

  pub with_meta_grpc :
      (m : List (Text × Text)) (svc : Service)
      → IsDistinct (keys m)
      → (with_meta lib m svc).grpc_addr
        ≡ or_empty (or_else (lookup grpc_key m) (some svc.grpc_addr))
  unfolding with_meta lookup
  with_meta_grpc [] svc d = refl
  with_meta_grpc ((k, v) ∷ m) svc d = ground (
    arith,
    with_meta_grpc m (set_field lib k v svc) d.1,
    set_field_grpc lib k v svc,
    beq_iff k grpc_key,
    lookup_absent k m,
    d.0,
  )

  pub with_meta_version :
      (m : List (Text × Text)) (svc : Service)
      → IsDistinct (keys m)
      → (with_meta lib m svc).version ≡ or_empty (or_else (lookup version_key m) (some svc.version))
  unfolding with_meta lookup
  with_meta_version [] svc d = refl
  with_meta_version ((k, v) ∷ m) svc d = ground (
    arith,
    with_meta_version m (set_field lib k v svc) d.1,
    set_field_version lib k v svc,
    beq_iff k version_key,
    lookup_absent k m,
    d.0,
  )

  pub with_meta_meta :
      (m : List (Text × Text)) (svc : Service) (j : Text)
      → IsDistinct (keys m)
      → is_reserved j ≡ false
      → meta_value j (with_meta lib m svc).meta
        ≡ or_empty (or_else (lookup j m) (some (meta_value j svc.meta)))
  unfolding with_meta lookup
  with_meta_meta [] svc j d free = refl
  with_meta_meta ((k, v) ∷ m) svc j d free = ground (
    arith,
    with_meta_meta m (set_field lib k v svc) j d.1 free,
    set_field_meta lib k v svc j free,
    beq_iff k j,
    lookup_absent k m,
    d.0,
  )
