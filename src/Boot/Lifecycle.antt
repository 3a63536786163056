-- ===== src/Boot/Lifecycle.antt =====
-- boot/app.go: the components of an application: AddComponent, AddReadinessCheck, startComponents and
-- stopComponents. What Start and Stop of a component do is a parameter.
pub mod Shutdown
use dilu_go_kit.Base.{
  List, [], ◌∷◌, ◌++◌, map, Option, none, some, Bool, true, false, ◌&&◌, ◌||◌, not, if◌then◌else◌,
}
use mathlib.Core.List.{reverse}
use dilu_go_kit.Base.Result.{Result, ok, err}
use dilu_go_kit.Base.Text.{Text, beq, codes, trim_space}
use dilu_go_kit.Base.Text.Sorting.{has}
use dilu_go_kit.Boot.Components.{Component, Error, order_components}
use dilu_go_kit.Boot.Components.Ordering.{names}

-- How runComponentStart and runComponentStop fail: the error that the component returned, its panic,
-- or the deadline.
pub data Fault : Type 0 where
  failed : Text → Fault
  panicked timed_out : Fault

-- What the components do when they are started and stopped; `none` is nil.
pub record World : Type 0 where
  pub start : Component → Option Fault
  pub stop : Component → Option Fault

pub data Action : Type 0 where
  start_of stop_of : Component → Action

-- The fields of App that the component methods use; of readinessChecks the keys. `stop_done` is
-- componentStopOnce, and `log` the calls of Start and Stop so far.
pub record App : Type 0 where
  pub components : List Component
  pub readiness_checks : List Text
  pub started_components : List Component
  pub stop_done : Bool
  pub log : List Action

abbrev pub new_app : App
new_app = record {
  components = [];
  readiness_checks = [];
  started_components = [];
  stop_done = false;
  log = [];
}

pub data AddError : Type 0 where
  component_nil name_required check_required : AddError
  already_registered check_registered : Text → AddError

-- A component, and whether it is ReadyAware.
pub record Candidate : Type 0 where
  pub component : Component
  pub ready_aware : Bool

abbrev pub check_name : Component → Text
check_name c = codes "component:" ++ trim_space c.name

-- AddComponent
unfoldable pub add_component : App → Option Candidate → App × Option AddError
add_component a none = (a, some component_nil)
add_component a (some k) =
    let c = k.component in
    if beq (trim_space c.name) []
    then (a, some name_required)
    else if has c.name (names a.components)
    then (a, some (already_registered c.name))
    else if k.ready_aware && has (check_name c) a.readiness_checks
    then (a, some (check_registered (check_name c)))
    else (
      record a {
        components = a.components ++ c ∷ [];
        readiness_checks =
            if k.ready_aware then check_name c ∷ a.readiness_checks else a.readiness_checks;
      },
      none,
    )

-- AddReadinessCheck, by the name and whether the function is not nil.
unfoldable pub add_readiness_check : App → Text → Bool → App × Option AddError
add_readiness_check a name check =
    let key = trim_space name in
    if beq key [] || not check
    then (a, some check_required)
    else if has key a.readiness_checks
    then (a, some (check_registered key))
    else (record a { readiness_checks = key ∷ a.readiness_checks }, none)

-- One round of the loop of startComponents: a component that fails has those before it stopped, the
-- last one first, and `rest` is what the rounds after it do.
abbrev pub Started : Type 0
Started = List Action × Result (Component × Fault) (List Component)

unfoldable pub start_one : List Component → Component → Option Fault → Started → Started
start_one done c none (acts, result) = (start_of c ∷ acts, result)
start_one done c (some f) rest = (start_of c ∷ map stop_of (reverse done), err (c, f))

-- The loop of startComponents, with the components that have started.
unfoldable pub run_starts : World → List Component → List Component → Started
unfolding start_one
run_starts w done [] = ([], ok done)
run_starts w done (c ∷ cs) = start_one done c (w.start c) (run_starts w (done ++ c ∷ []) cs)

pub data StartError : Type 0 where
  order : Error → StartError
  start_failed : Component → Fault → StartError

unfoldable pub finish_start : App → Started → App × Option StartError
finish_start a (acts, ok done) = (record a { log = a.log ++ acts; started_components = done }, none)
finish_start a (acts, err (c, f)) = (record a { log = a.log ++ acts }, some (start_failed c f))

unfoldable pub launch : World → App → Result Error (List Component) → App × Option StartError
unfolding run_starts finish_start
launch w a (err e) = (a, some (order e))
launch w a (ok ordered) = finish_start a (run_starts w [] ordered)

-- startComponents
unfoldable pub start_components : World → App → App × Option StartError
unfolding launch
start_components w a = launch w a (order_components a.components)

-- The errors of the loop of stopComponents.
unfoldable pub stop_faults : World → List Component → List (Component × Fault)
stop_faults w [] = []
stop_faults w (c ∷ cs) =
    let rest = stop_faults w cs in elim (w.stop c) [ none ↦ rest | some f ↦ (c, f) ∷ rest ]

-- stopComponents
unfoldable pub stop_components : World → App → App × List (Component × Fault)
unfolding stop_faults
stop_components w a =
    let order = reverse a.started_components in
    if a.stop_done
    then (a, [])
    else (record a { stop_done = true; log = a.log ++ map stop_of order }, stop_faults w order)
