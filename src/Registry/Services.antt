-- ===== src/Registry/Services.antt =====
-- normalizeServices: one service for each instance ID, the last one given, in the order of the IDs.
use dilu_go_kit.Base.{
  List, [], ◌∷◌, Option, none, some, Bool, true, ◌≡◌, ◌≢◌, refl, sym, ◌∙◌, if◌then◌else◌, arith,
}
use dilu_go_kit.Base.Text.{Text, beq, beq_iff}
use dilu_go_kit.Base.Text.Order.{before, before_irrefl, before_trans, before_total}
use dilu_go_kit.Base.Dict.{
  lookup, insert, keys, or_else, lookup-insert, lookup-has, lookup_absent, insert-IsDistinct,
}
use dilu_go_kit.Base.Text.Sorting.{has, IsDistinct, IsSorted, above, sort, has-sort, sort-IsSorted}
use dilu_go_kit.Registry.{Service, index_from, pick, normalize_services}

-- The specification: the last service of the list with that instance ID.
unfoldable pub last_with : Text → List Service → Option Service
last_with id [] = none
last_with id (s ∷ ss) = elim (last_with id ss) [
  | none ↦ if beq s.instance_id id then some s else none
  | some t ↦ some t
]

-- Strictly ascending instance IDs.
abbrev pub first_above : Text → List Service → Bool
first_above id [] = true
first_above id (s ∷ ss) = before id s.instance_id

abbrev pub IsAscending : List Service → Type 0
IsAscending [] = Unit {0}
IsAscending (s ∷ ss) = (first_above s.instance_id ss ≡ true) × IsAscending ss

-- The index maps an ID to the last service given with it, and its keys are distinct.
pub lookup-index_from :
    (id : Text) (m : List (Text × Service)) (ss : List Service)
    → lookup id (index_from m ss) ≡ or_else (last_with id ss) (lookup id m)
unfolding index_from last_with
lookup-index_from id m [] = refl
lookup-index_from id m (s ∷ ss) =
    ground (
      arith,
      lookup-index_from id (insert s.instance_id s m) ss,
      lookup-insert s.instance_id id s m,
    )

pub index_from-IsDistinct :
    (m : List (Text × Service)) (ss : List Service)
    → IsDistinct (keys m)
    → IsDistinct (keys (index_from m ss))
unfolding index_from
index_from-IsDistinct m [] d = d
index_from-IsDistinct m (s ∷ ss) d =
    index_from-IsDistinct (insert s.instance_id s m) ss (insert-IsDistinct s.instance_id s m d)

last_with-id :
    (id : Text) (ss : List Service) (s : Service) → last_with id ss ≡ some s → s.instance_id ≡ id
unfolding last_with
last_with-id id [] s e = cc
last_with-id id (t ∷ ss) s e = ground (arith, last_with-id id ss s, beq_iff t.instance_id id)

-- Every key of `ids` is in the map, under the ID of its service.
abbrev Present : List (Text × Service) → List Text → Type 0
Present m ids =
    (j : Text) → has j ids ≡ true → (s : Service) × (lookup j m ≡ some s) × (s.instance_id ≡ j)

-- The IDs of the services picked are the keys.
abbrev pub ids_of : List Service → List Text
ids_of [] = []
ids_of (s ∷ ss) = s.instance_id ∷ ids_of ss

beq_refl : (a : Text) → beq a a ≡ true
beq_refl a = (beq_iff a a).1 refl

ids_of-pick :
    (m : List (Text × Service)) (ids : List Text) → Present m ids → ids_of (pick m ids) ≡ ids
unfolding pick
ids_of-pick m [] h = refl
ids_of-pick m (i ∷ ids) h =
    let (s, found, same) = h i (rw (beq_refl i)) in
    rw found (cc (same, ids_of-pick m ids (λ j p. h j (ground arith))))

last_with-pick :
    (id : Text) (m : List (Text × Service)) (ids : List Text)
    → Present m ids
    → last_with id (pick m ids) ≡ (if has id ids then lookup id m else none)
unfolding pick last_with
last_with-pick id m [] h = refl
last_with-pick id m (i ∷ ids) h =
    let (s, found, same) = h i (rw (beq_refl i)) in
    let rest = last_with-pick id m ids (λ j p. h j (ground arith)) in
    ground (arith, rest, found, same, beq_iff i id, beq_iff s.instance_id id, h id)

module _ (ss : List Service) where
  abbrev index : List (Text × Service)
  index = index_from [] ss

  index-Present : Present index (sort (keys index))
  unfolding last_with lookup
  index-Present j h =
      let (s, found) = lookup-has j index (sym (has-sort j (keys index)) ∙ h) in
      (s, found, last_with-id j ss s (ground (arith, lookup-index_from j [] ss, found)))

  normalize-IsSorted : IsSorted (ids_of (normalize_services ss))
  unfolding normalize_services
  normalize-IsSorted =
      rw (ids_of-pick index (sort (keys index)) index-Present)
        (sort-IsSorted (keys index) (index_from-IsDistinct [] ss tt))

  last_with-normalize : (id : Text) → last_with id (normalize_services ss) ≡ last_with id ss
  unfolding normalize_services lookup
  last_with-normalize id = ground (
    arith,
    last_with-pick id index (sort (keys index)) index-Present,
    has-sort id (keys index),
    lookup_absent id index,
    lookup-index_from id [] ss,
  )

-- An ID below all those of a sorted list is not in it.
last_with_below :
    (id : Text) (xs : List Service)
    → IsSorted (ids_of xs)
    → above id (ids_of xs) ≡ true
    → last_with id xs ≡ none
unfolding last_with
last_with_below id [] s a = refl
last_with_below id (x ∷ []) s a = ground (arith, beq_iff x.instance_id id, before_irrefl id)
last_with_below id (x ∷ y ∷ ys) s a = ground (
  arith,
  last_with_below id (y ∷ ys) s.1,
  before_trans id x.instance_id y.instance_id a s.0,
  beq_iff x.instance_id id,
  before_irrefl id,
)

last_with_head :
    (x : Service) (xs : List Service)
    → IsSorted (ids_of (x ∷ xs))
    → last_with x.instance_id (x ∷ xs) ≡ some x
unfolding last_with
last_with_head x xs s = rw (last_with_below x.instance_id xs s.1 s.0, beq_refl x.instance_id)

-- In a sorted list the tail holds the IDs other than the first.
last_with_tail :
    (id : Text) (x : Service) (xs : List Service)
    → IsSorted (ids_of (x ∷ xs))
    → last_with id xs ≡ (if beq x.instance_id id then none else last_with id (x ∷ xs))
unfolding last_with
last_with_tail id x xs s =
    ground (arith, last_with_below x.instance_id xs s.1 s.0, beq_iff x.instance_id id)

last_with_nil : (id : Text) → last_with id [] ≡ none
unfolding last_with
last_with_nil id = refl

last_with_some : (s : Service) (ss : List Service) → last_with s.instance_id (s ∷ ss) ≢ none
unfolding last_with
last_with_some s ss = ground (arith, beq_refl s.instance_id)

same_head :
    (x y : Service) (xs ys : List Service)
    → IsSorted (ids_of (x ∷ xs))
    → IsSorted (ids_of (y ∷ ys))
    → ((id : Text) → last_with id (x ∷ xs) ≡ last_with id (y ∷ ys))
    → x ≡ y
same_head x y xs ys sx sy h = ground (
  arith,
  before_total x.instance_id y.instance_id,
  h x.instance_id,
  h y.instance_id,
  last_with_head x xs sx,
  last_with_head y ys sy,
  last_with_below x.instance_id (y ∷ ys) sy,
  last_with_below y.instance_id (x ∷ xs) sx,
)

-- Sorted lists with the same services are equal.
same_services :
    (xs ys : List Service)
    → IsSorted (ids_of xs)
    → IsSorted (ids_of ys)
    → ((id : Text) → last_with id xs ≡ last_with id ys)
    → xs ≡ ys
same_services [] [] sx sy h = refl
same_services [] (y ∷ ys) sx sy h =
    ground (arith, h y.instance_id, last_with_head y ys sy, last_with_nil y.instance_id)
same_services (x ∷ xs) [] sx sy h =
    ground (arith, h x.instance_id, last_with_head x xs sx, last_with_nil x.instance_id)
same_services (x ∷ xs) (y ∷ ys) sx sy h =
    let head = same_head x y xs ys sx sy h in
    ground (
      arith,
      head,
      same_services xs ys sx.1 sy.1 λ id.
          last_with_tail id x xs sx ∙ ground (arith, head, h id) ∙ sym (last_with_tail id y ys sy),
    )

-- normalizeServices returns one service for each instance ID that it is given, the one given last,
-- in strictly ascending order of the IDs. A list that agrees with another one on the last service of
-- every ID is normalized to the same list, in whatever order it comes, and normalizing twice changes
-- nothing.
pub normalize_canonical :
    (ss ts : List Service)
    → ((id : Text) → last_with id ss ≡ last_with id ts)
    → IsSorted (ids_of (normalize_services ss))
      × ((id : Text) → last_with id (normalize_services ss) ≡ last_with id ss)
      × (normalize_services ss ≡ normalize_services ts)
      × (normalize_services (normalize_services ss) ≡ normalize_services ss)
normalize_canonical ss ts same =
    let agree = λ (xs ys : List Service) (h : (id : Text) → last_with id xs ≡ last_with id ys).
      same_services (normalize_services xs) (normalize_services ys) (normalize-IsSorted xs)
        (normalize-IsSorted ys)
        (λ id. last_with-normalize xs id ∙ h id ∙ sym (last_with-normalize ys id)) in
    (
      normalize-IsSorted ss,
      last_with-normalize ss,
      agree ss ts same,
      agree (normalize_services ss) ss (last_with-normalize ss),
    )

pub normalize_nil : normalize_services [] ≡ []
unfolding normalize_services
normalize_nil = refl

pub normalize-ne-nil : (ss : List Service) → ss ≢ [] → normalize_services ss ≢ []
normalize-ne-nil [] h e = h refl
normalize-ne-nil (s ∷ ss) h e = ground (
  arith,
  last_with-normalize (s ∷ ss) s.instance_id,
  last_with_nil s.instance_id,
  last_with_some s ss,
)
