-- ===== src/Boot/Components.antt =====
-- boot/components.go: the stable topological sort of the components by their dependencies.
pub mod Ordering
pub mod Sound
pub mod Fuel
use dilu_go_kit.Base.{
  ℕ, zero, suc, ◌+◌, ◌≡◌, List, [], ◌∷◌, ◌++◌, Option, none, some, Bool, true, false, if◌then◌else◌,
  length,
}
use dilu_go_kit.Base.Result.{Result, ok, err, ◌>>=◌}
use dilu_go_kit.Base.Text.{Text, beq, trim_space}
use dilu_go_kit.Base.Dict.{lookup, insert}

-- A Component by its name and, if it is DependencyAware, the names that DependsOn returns; another
-- component has none.
pub record Component : Type 0 where
  pub name : Text
  pub depends_on : List Text

-- The errors of the sort; the last one stands for a recursion that was cut off by the fuel.
pub data Error : Type 0 where
  cycle : List Text → Error
  unknown : Text → Text → Error
  out_of_fuel : Error

-- The states 1 and 2; a component without an entry is in state 0.
pub data Mark : Type 0 where
  visiting done : Mark

-- The maps and the slice that `visit` changes.
pub record Progress : Type 0 where
  pub state : List (Text × Mark)
  pub ordered : List Component

abbrev pub Table : Type 0
Table = List (Text × Component)

-- `byName[component.Name()] = component` for each component.
unfoldable pub by_name_from : Table → List Component → Table
by_name_from m [] = m
by_name_from m (c ∷ cs) = by_name_from (insert c.name c m) cs

-- The loop over DependsOn in `visit`, where `call` is the recursive call.
unfoldable pub visit_all :
    (Component → List Text → Progress → Result Error Progress)
    → Table
    → Text
    → List Text
    → List Text
    → Progress
    → Result Error Progress
visit_all call table name path [] p = ok p
visit_all call table name path (d ∷ ds) p =
    let dependency = trim_space d in
    let rest = λ (q : Progress). visit_all call table name path ds q in
    if beq dependency [] then rest p else elim (lookup dependency table) [
      | none ↦ err (unknown name dependency)
      | some c ↦ call c (path ++ name ∷ []) p >>= rest
    ]

-- The component is entered.
abbrev pub enter : Component → Progress → Progress
enter c p = record p { state = insert c.name visiting p.state }

-- The component is finished.
abbrev pub leave : Component → Progress → Progress
leave c p = record { state = insert c.name done p.state; ordered = p.ordered ++ c ∷ [] }

-- `visit`; the fuel bounds the depth of the recursion.
unfoldable pub visit : ℕ → Table → Component → List Text → Progress → Result Error Progress
visit zero table c path p = err out_of_fuel
visit (suc fuel) table c path p = elim (lookup c.name p.state) [
  | none ↦ visit_all (visit fuel table) table c.name path c.depends_on (enter c p) >>= λ q.
      ok (leave c q)
  | some visiting ↦ err (cycle (path ++ c.name ∷ []))
  | some done ↦ ok p
]

-- The loop over the components.
unfoldable pub visit_each : ℕ → Table → List Component → Progress → Result Error Progress
visit_each fuel table [] p = ok p
visit_each fuel table (c ∷ cs) p = visit fuel table c [] p >>= visit_each fuel table cs

-- orderComponents
unfoldable pub order_components : List Component → Result Error (List Component)
order_components cs =
    visit_each (length cs + 1) (by_name_from [] cs) cs (record { state = []; ordered = [] })
    >>= λ p. ok p.ordered
