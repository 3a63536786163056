-- ===== src/Consul/Watch/View.antt =====
-- What a receiver of the events of Watch knows.
use dilu_go_kit.Base.{
  ◌≡◌, refl, ap, ◌∙◌, List, [], ◌∷◌, Option, none, some, Bool, true, false, ◌&&◌, not,
  if◌then◌else◌, select, All, arith, Bool-cases, inl, inr,
}
use dilu_go_kit.Base.Text.{Text, beq_iff}
use dilu_go_kit.Base.Text.Sorting.{has, IsDistinct}
use dilu_go_kit.Base.Dict.{
  lookup, insert, remove, keys, or_else, lookup-insert, lookup-remove, has-keys,
}
use dilu_go_kit.Registry.{Service, index_from}
use dilu_go_kit.Registry.Services.{last_with, lookup-index_from}
use dilu_go_kit.Registry.Events.{
  Known, put_all, receive_all, receive_all-append, receive_all-put_all,
}
use dilu_go_kit.Consul.{Library, Entry, services_of}
use dilu_go_kit.Consul.Watch.{
  is_changed, put_changed, delete_gone, gone, compare_reply, rounds, watch,
}

abbrev pub ids : List Service → List Text
ids [] = []
ids (s ∷ ss) = s.instance_id ∷ ids ss

last_with_absent :
    (id : Text) (ss : List Service) → has id (ids ss) ≡ false → last_with id ss ≡ none
unfolding last_with
last_with_absent id [] h = refl
last_with_absent id (s ∷ ss) h = ground (arith, last_with_absent id ss)

or_else-none : (o : Option Service) → or_else o none ≡ o
or_else-none none = refl
or_else-none (some s) = refl

index_view : (svcs : List Service) (j : Text) → lookup j (index_from [] svcs) ≡ last_with j svcs
unfolding lookup
index_view svcs j = lookup-index_from j [] svcs ∙ or_else-none (last_with j svcs)

gone_view :
    (name : Text) (away : List Text) (view : Known) (j : Text)
    → lookup j (receive_all (delete_gone name away) view)
      ≡ (if has j away then none else lookup j view)
unfolding receive_all delete_gone
gone_view name [] view j = refl
gone_view name (id ∷ away) view j =
    ground (arith, gone_view name away (remove id view) j, lookup-remove id j view)

-- Where the view of a receiver and what Watch knows are the same.
abbrev Agree : Known → List Service → Known → Type 0
Agree known svcs view = (j : Text) → has j (ids svcs) ≡ true → lookup j view ≡ lookup j known

keeps_rest :
    (known : Known) (s : Service) (ss : List Service) (view : Known)
    → Agree known (s ∷ ss) view
    → Agree known ss view
keeps_rest known s ss view agree j at = agree j (ground (arith, at))

keeps_insert :
    (known : Known) (s : Service) (ss : List Service) (view : Known)
    → has s.instance_id (ids ss) ≡ false
    → Agree known (s ∷ ss) view
    → Agree known ss (insert s.instance_id s view)
keeps_insert known s ss view apart agree j at = ground (
  arith,
  lookup-insert s.instance_id j s view,
  keeps_rest known s ss view agree j at,
  beq_iff s.instance_id j,
)

-- The reply that came last.
abbrev pub latest : List Entry → List (Option (List Entry)) → List Entry
latest entries [] = entries
latest entries (none ∷ replies) = latest entries replies
latest entries (some next ∷ replies) = latest next replies

-- A reply whose listed services have distinct identifiers.
abbrev pub Apart : Library → Text → Option (List Entry) → Type 0
Apart lib name none = Unit
Apart lib name (some entries) = IsDistinct (ids (services_of lib name entries))

module _ (same : Service → Service → Bool)
    (same-eq : (a b : Service) → same a b ≡ true → a ≡ b) where
  unchanged : (o : Option Service) (s : Service) → is_changed same o s ≡ false → o ≡ some s
  unchanged none s h = cc
  unchanged (some previous) s h = ap some (same-eq previous s (ground arith))

  changed_view :
      (known : Known) (svcs : List Service) (view : Known)
      → IsDistinct (ids svcs)
      → Agree known svcs view
      → (j : Text)
      → lookup j (receive_all (put_changed same known svcs) view)
        ≡ or_else (last_with j svcs) (lookup j view)
  unfolding receive_all put_changed last_with
  changed_view known [] view d agree j = refl
  changed_view known (s ∷ ss) view d agree j =
      elim (Bool-cases (is_changed same (lookup s.instance_id known) s)) [
        | inl h ↦
            let view' = insert s.instance_id s view in
            let ih = changed_view known ss view' d.1 (keeps_insert known s ss view d.0 agree) j in
            rw h (
              ground (
                arith,
                ih,
                lookup-insert s.instance_id j s view,
                last_with_absent j ss,
                beq_iff s.instance_id j,
                d.0,
              ))
        | inr h ↦
            let old = unchanged (lookup s.instance_id known) s h in
            let ih = changed_view known ss view d.1 (keeps_rest known s ss view agree) j in
            let here = agree s.instance_id (ground (arith, beq_iff s.instance_id s.instance_id)) in
            rw h
              (ground (arith, ih, last_with_absent j ss, beq_iff s.instance_id j, d.0, old, here))
      ]

  has-select :
      (test : Text → Bool) (j : Text) (ks : List Text)
      → has j (select test ks) ≡ (has j ks && test j)
  has-select test j [] = refl
  has-select test j (k ∷ ks) = ground (arith, has-select test j ks, beq_iff k j)

  settle :
      (known seen : Known) (svcs : List Service) (view : Known) (j : Text)
      → lookup j view ≡ or_else (last_with j svcs) (lookup j known)
      → lookup j seen ≡ or_else (last_with j svcs) none
      → (if has j (gone known seen) then none else lookup j view) ≡ lookup j seen
  settle known seen svcs view j changed listed = ground (
    arith,
    has-select (λ id. not (has id (keys seen))) j (keys known),
    has-keys j seen,
    has-keys j known,
    changed,
    listed,
  )

  compare_view :
      (name : Text) (known : Known) (svcs : List Service) (view : Known)
      → IsDistinct (ids svcs)
      → ((j : Text) → lookup j view ≡ lookup j known)
      → (j : Text)
      → let (events, seen) = compare_reply same name known svcs in
        lookup j (receive_all events view) ≡ lookup j seen
  unfolding compare_reply
  compare_view name known svcs view d agree j =
      let seen = index_from [] svcs in
      let puts = put_changed same known svcs in
      let view' = receive_all puts view in
      let away = gone known seen in
      let changed = changed_view known svcs view d (λ i at. agree i) j in
      ap (lookup j) (receive_all-append puts (delete_gone name away) view)
      ∙ gone_view name away view' j
      ∙ settle known seen svcs view' j (changed ∙ ap (or_else (last_with j svcs)) (agree j))
          (lookup-index_from j [] svcs)

  rounds_view :
      (lib : Library) (name : Text) (entries : List Entry) (known : Known)
      (replies : List (Option (List Entry))) (view : Known)
      → All (Apart lib name) replies
      → ((j : Text) → lookup j known ≡ last_with j (services_of lib name entries))
      → ((j : Text) → lookup j view ≡ lookup j known)
      → (j : Text)
      → lookup j (receive_all (rounds lib same name known replies).0 view)
        ≡ last_with j (services_of lib name (latest entries replies))
  unfolding rounds receive_all compare_reply
  rounds_view lib name entries known [] view apart listed agree j = agree j ∙ listed j
  rounds_view lib name entries known (none ∷ replies) view (d, ds) listed agree j =
      rounds_view lib name entries known replies view ds listed agree j
  rounds_view lib name entries known (some next ∷ replies) view (d, ds) listed agree j =
      let svcs = services_of lib name next in
      let (events, seen) = compare_reply same name known svcs in
      ap (lookup j) (receive_all-append events (rounds lib same name seen replies).0 view)
      ∙ rounds_view lib name next seen replies (receive_all events view) ds (λ i. index_view svcs i)
          (compare_view name known svcs view d agree) j

  -- A receiver of the events of Watch that keeps the services by their identifiers. After all events
  -- of any number of rounds, some of them with a query that failed, its map is what the last reply
  -- lists, and nothing else: the usable services of that name. The replies but the first have to
  -- list services of distinct identifiers, and services that are DeepEqual to be equal.
  pub watch_view :
      (lib : Library) (name : Text) (first : List Entry) (replies : List (Option (List Entry)))
      → All (Apart lib name) replies
      → (j : Text)
      → lookup j (receive_all (watch lib same name first replies).0 [])
        ≡ last_with j (services_of lib name (latest first replies))
  unfolding watch rounds
  watch_view lib name first replies apart j =
      let current = services_of lib name first in
      let known = index_from [] current in
      let later = (rounds lib same name known replies).0 in
      ap (lookup j) (receive_all-append (put_all current) later [])
      ∙ ap (λ v. lookup j (receive_all later v)) (receive_all-put_all current [])
      ∙ rounds_view lib name first known replies known apart (λ i. index_view current i) (λ i. refl)
          j
