-- ===== src/Tests/LeaseRuns.antt =====
-- Two registrations of one instance in etcd, and a loop between them.
use dilu_go_kit.Base.{◌≡◌, refl, List, [], ◌∷◌, ◌++◌, none, some, true, false}
use dilu_go_kit.Base.Text.{Text, codes, beq}
use dilu_go_kit.Base.Dict.{lookup, insert, keys}
use dilu_go_kit.Base.Text.Sorting.{IsDistinct}
use dilu_go_kit.Etcd.Leases.{
  World, alive, stored, regranted, Event, register, deregister, close, move, fine, advance, step,
  run, new_registry, is_in, is_current, add, put,
}
use dilu_go_kit.Etcd.Leases.Steps.{Inv}
use dilu_go_kit.Etcd.Leases.Closing.{Stops, loops_stop}
use dilu_go_kit.Etcd.Leases.Races.{registering, crossing, register_alone, register_loses_key}

abbrev key : Text
key = codes "/api/a"

abbrev id : Text
id = codes "a"

-- The loop of the first registration is cut off and has a new lease when the second one begins.
abbrev history : List Event
history = registering key id ++ move 0 fine ∷ move 0 fine ∷ register key id ∷ move 0 fine ∷ []

loops_stop_example :
    Inv (run new_registry history)
    × Stops (step (run new_registry history) (deregister key id)) (λ i. beq i id)
    × Stops (step (run new_registry history) close) (λ i. true)
loops_stop_example = loops_stop history key id

-- The same instance once more.
abbrev registered : World
registered = record new_registry {
  leases = (id, 1) ∷ [];
  cancels = (id, 2) ∷ [];
  store = (key, 1) ∷ [];
  next = 3;
  threads = alive key id 1 2 ∷ [];
}

reached : run new_registry (registering key id) ≡ registered
unfolding run step advance put insert lookup
reached = refl

current : is_current 3 (lookup id registered.leases) ≡ false
unfolding lookup beq
current = refl

register_alone_example :
    let v = run registered (registering key id) in
    (lookup key v.store ≡ some 3)
    × (lookup id v.leases ≡ some 3)
    × (lookup id v.cancels ≡ some 4)
    × (v.cancelled ≡ add (lookup id registered.cancels) [])
    × (v.ended ≡ add (lookup id registered.leases) [])
    × (v.threads ≡ alive key id 3 4 ∷ alive key id 1 2 ∷ [])
register_alone_example = register_alone registered key id refl current (refl, tt)

crossed : (run new_registry history).threads ≡ stored key id 4 ∷ regranted key id 1 2 3 ∷ []
unfolding run step advance put insert lookup beq
crossed = refl

not_ended : is_in 3 (run new_registry history).ended ≡ false
unfolding run step advance put insert lookup beq
not_ended = refl

one_key : IsDistinct (keys (run new_registry history).store)
unfolding run step advance put insert lookup beq
one_key = (refl, tt)

register_loses_key_example :
    let v = run (run new_registry history) crossing in
    (v.threads ≡ alive key id 4 (run new_registry history).next ∷ [])
    × (lookup id v.leases ≡ some 4)
    × (lookup key v.store ≡ none)
register_loses_key_example =
    register_loses_key (run new_registry history) key id 1 2 3 4 [] crossed not_ended refl one_key
