-- ===== src/Etcd/Watch/Deletions.antt =====
-- What the deletions at the start of a session do to a receiver of the events of Watch.
use dilu_go_kit.Base.{
  ◌≡◌, refl, ap, ◌∙◌, List, [], ◌∷◌, Option, none, some, ◌&&◌, not, if◌then◌else◌, All, if_cases,
  arith, Bool-cases, inl, inr,
}
use dilu_go_kit.Base.Text.{Text, beq, beq_iff}
use dilu_go_kit.Base.Text.Sorting.{has}
use dilu_go_kit.Base.Dict.{lookup, insert, remove, keys, or_else, lookup-remove, has-keys, is_some}
use dilu_go_kit.Registry.{Service, index_from}
use dilu_go_kit.Registry.Services.{last_with, lookup-index_from}
use dilu_go_kit.Registry.Events.{
  Event, put, delete, Known, put_all, receive_all, receive_all-put_all,
}
use dilu_go_kit.Etcd.Watch.{delete_missing}

-- A known service stands under its own identifier.
abbrev pub Keyed : Known → Type 0
Keyed known = All (λ (e : Text × Service). e.1.instance_id ≡ e.0) known

insert-Keyed :
    (svc : Service) (known : Known) → Keyed known → Keyed (insert svc.instance_id svc known)
unfolding insert
insert-Keyed svc [] h = (refl, tt)
insert-Keyed svc ((id, s) ∷ known) (h, hs) =
    if_cases {A = Known} Keyed (beq id svc.instance_id) (λ e. (refl, hs))
      (λ e. (h, insert-Keyed svc known hs))

remove-Keyed : (k : Text) (known : Known) → Keyed known → Keyed (remove k known)
unfolding remove
remove-Keyed k [] h = tt
remove-Keyed k ((id, s) ∷ known) (h, hs) =
    if_cases {A = Known} Keyed (beq id k) (λ e. remove-Keyed k known hs)
      (λ e. (h, remove-Keyed k known hs))

pub receive_all-Keyed :
    (es : List Event) (known : Known) → Keyed known → Keyed (receive_all es known)
unfolding receive_all
receive_all-Keyed [] known h = h
receive_all-Keyed (put svc ∷ es) known h =
    receive_all-Keyed es (insert svc.instance_id svc known) (insert-Keyed svc known h)
receive_all-Keyed (delete svc ∷ es) known h =
    receive_all-Keyed es (remove svc.instance_id known) (remove-Keyed svc.instance_id known h)

pub index_from-Keyed :
    (svcs : List Service) (known : Known) → Keyed known → Keyed (index_from known svcs)
unfolding index_from
index_from-Keyed [] known h = h
index_from-Keyed (s ∷ ss) known h =
    index_from-Keyed ss (insert s.instance_id s known) (insert-Keyed s known h)

missing_view :
    (known current view : Known) (j : Text)
    → Keyed known
    → lookup j (receive_all (delete_missing known current) view)
      ≡ (if has j (keys known) && not (has j (keys current)) then none else lookup j view)
unfolding delete_missing receive_all
missing_view [] current view j h = refl
missing_view ((id, svc) ∷ known) current view j (h, hs) =
    elim (Bool-cases (has id (keys current))) [
      | inl seen ↦
          rw seen (ground (arith, seen, beq_iff id j, missing_view known current view j hs))
      | inr missing ↦
          let rest = missing_view known current (remove svc.instance_id view) j hs in
          rw missing
            (ground (arith, missing, beq_iff id j, rest, lookup-remove svc.instance_id j view, h))
    ]

settled :
    (last known view : Option Service)
    → view ≡ known
    → (if is_some known && not (is_some (or_else last none)) then none else or_else last view)
      ≡ last
settled none none view e = e
settled none (some s) view e = refl
settled (some s) none view e = refl
settled (some s) (some t) view e = refl

pub or_else-none : (o : Option Service) → or_else o none ≡ o
or_else-none none = refl
or_else-none (some s) = refl

pub current_view :
    (j : Text) (svcs : List Service) (known view : Known)
    → Keyed known
    → lookup j view ≡ lookup j known
    → lookup j
        (receive_all (delete_missing known (index_from [] svcs)) (receive_all (put_all svcs) view))
      ≡ last_with j svcs
unfolding lookup
current_view j svcs known view keyed agree =
    let current = index_from [] svcs in
    let put_view = ap (lookup j) (receive_all-put_all svcs view) ∙ lookup-index_from j view svcs in
    let listed = has-keys j current ∙ ap is_some (lookup-index_from j [] svcs) in
    missing_view known current (receive_all (put_all svcs) view) j keyed
    ∙ rw (has-keys j known, listed, put_view)
        (settled (last_with j svcs) (lookup j known) (lookup j view) agree)
