-- ===== src/Tests/LifecycleRuns.antt =====
-- An application of two components, and one of them failing to start.
use dilu_go_kit.Base.{
  ◌≡◌, refl, List, [], ◌∷◌, ◌++◌, map, Option, none, some, true, false, if◌then◌else◌,
}
use mathlib.Core.List.{reverse}
use dilu_go_kit.Base.Result.{ok}
use dilu_go_kit.Base.Text.{codes, beq, trim_space, is_space}
use dilu_go_kit.Base.Dict.{lookup, insert}
use dilu_go_kit.Boot.Components.{
  Component, order_components, visit, visit_all, visit_each, by_name_from,
}
use dilu_go_kit.Boot.Components.Sound.{IsSort}
use dilu_go_kit.Boot.Lifecycle.{
  new_app, Candidate, World, panicked, start_of, stop_of, add_component, start_components,
  stop_components, start_failed,
}
use dilu_go_kit.Boot.Lifecycle.Shutdown.{add_all, orderly_life, failed_start}

abbrev web : Component
web = record { name = codes "web"; depends_on = codes "db" ∷ [] }

abbrev db : Component
db = record { name = codes "db"; depends_on = [] }

-- The second call with the name db fails.
abbrev calls : List (Option Candidate)
calls =
    some (record { component = web; ready_aware = true })
    ∷ some (record { component = db; ready_aware = false })
    ∷ some (record { component = db; ready_aware = false })
    ∷ none
    ∷ []

abbrev healthy : World
healthy = record { start = λ c. none; stop = λ c. none }

abbrev broken : World
broken = record {
  start = λ c. if beq c.name (codes "web") then some panicked else none;
  stop = λ c. none;
}

ordered : order_components (add_all new_app calls).components ≡ ok (db ∷ web ∷ [])
unfolding add_all add_component order_components visit_each visit visit_all by_name_from lookup
    insert trim_space beq is_space
ordered = refl

orderly_life_example :
    let (up, problem) = start_components healthy (add_all new_app calls) in
    let down = (stop_components healthy up).0 in
    IsSort (add_all new_app calls).components (db ∷ web ∷ [])
    × (problem ≡ none)
    × (down.log ≡ map start_of (db ∷ web ∷ []) ++ map stop_of (reverse (db ∷ web ∷ [])))
    × (stop_components healthy down ≡ (down, []))
orderly_life_example = orderly_life healthy calls (db ∷ web ∷ []) ordered (refl, (refl, tt))

web_fails : broken.start web ≡ some panicked
unfolding beq
web_fails = refl

db_starts : broken.start db ≡ none
unfolding beq
db_starts = refl

failed_start_example :
    let (up, problem) = start_components broken (add_all new_app calls) in
    (problem ≡ some (start_failed web panicked))
    × (up.log ≡ map start_of (db ∷ []) ++ start_of web ∷ map stop_of (reverse (db ∷ [])))
    × (up.started_components ≡ [])
    × ((stop_components broken up).0.log ≡ up.log)
    × ((stop_components broken up).1 ≡ [])
failed_start_example =
    failed_start broken calls (db ∷ []) web [] panicked ordered (db_starts, tt) web_fails
