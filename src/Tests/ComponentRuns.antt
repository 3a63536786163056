-- ===== src/Tests/ComponentRuns.antt =====
-- Three components, the first of which depends on the last, and sorts that fail.
use dilu_go_kit.Base.{◌≡◌, ◌≢◌, refl, [], ◌∷◌}
use dilu_go_kit.Base.Text.{codes, beq, trim_space, is_space}
use dilu_go_kit.Base.Dict.{lookup, insert}
use dilu_go_kit.Base.Result.{ok, err}
use dilu_go_kit.Boot.Components.{
  Component, cycle, unknown, out_of_fuel, order_components, visit, visit_all, visit_each,
  by_name_from,
}
use dilu_go_kit.Boot.Components.Sound.{IsSort, order_components-IsSort}
use dilu_go_kit.Boot.Components.Fuel.{order_components_total}

abbrev web : Component
web = record { name = codes "web"; depends_on = codes " db " ∷ codes "" ∷ [] }

abbrev jobs : Component
jobs = record { name = codes "jobs"; depends_on = codes "web" ∷ [] }

abbrev db : Component
db = record { name = codes "db"; depends_on = [] }

abbrev looping : Component
looping = record { name = codes "db"; depends_on = codes "jobs" ∷ [] }

sorted : order_components (web ∷ jobs ∷ db ∷ []) ≡ ok (db ∷ web ∷ jobs ∷ [])
unfolding order_components visit_each visit visit_all by_name_from lookup insert trim_space beq
    is_space
sorted = refl

missing : order_components (web ∷ []) ≡ err (unknown (codes "web") (codes "db"))
unfolding order_components visit_each visit visit_all by_name_from lookup insert trim_space beq
    is_space
missing = refl

circular :
    order_components (web ∷ jobs ∷ looping ∷ [])
    ≡ err (cycle (codes "web" ∷ codes "db" ∷ codes "jobs" ∷ codes "web" ∷ []))
unfolding order_components visit_each visit visit_all by_name_from lookup insert trim_space beq
    is_space
circular = refl

order_components-IsSort_example : IsSort (web ∷ jobs ∷ db ∷ []) (db ∷ web ∷ jobs ∷ [])
unfolding beq
order_components-IsSort_example =
    order_components-IsSort (web ∷ jobs ∷ db ∷ []) (db ∷ web ∷ jobs ∷ []) (refl, (refl, (refl, tt)))
      sorted

order_components_total_example : order_components (web ∷ jobs ∷ looping ∷ []) ≢ err out_of_fuel
order_components_total_example = order_components_total (web ∷ jobs ∷ looping ∷ [])
