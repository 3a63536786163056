-- ===== src/Clientx/Breaker/Machine.antt =====
-- The breaker under interleaved calls of Do: a call in flight is its permit.
use dilu_go_kit.Base.{
  ℕ, zero, suc, Bool, true, false, ◌&&◌, not, Option, none, some, List, [], ◌∷◌, ◌==◌,
  if◌then◌else◌,
}
use Prim.Native.Nat.{max}
use dilu_go_kit.Errors.{Error}
use dilu_go_kit.Clientx.Breaker.{Breaker, Permit, Config, new_breaker, current, before, after}

pub record System : Type 0 where
  pub breaker : Breaker
  pub in_flight : List Permit

-- What another goroutine can do next: enter Do, return from the operation of the `i`th call in
-- flight with an error or nil, panic in that operation (after is then never called), or ask State.
pub data Event : Type 0 where
  enter : ℕ → Event
  return_at : ℕ → Error → ℕ → Event
  panic_at : ℕ → Event
  observe : ℕ → Event

abbrev pub remove_at : ℕ → List Permit → List Permit
remove_at i [] = []
remove_at zero (p ∷ ps) = ps
remove_at (suc i) (p ∷ ps) = p ∷ remove_at i ps

abbrev pub permit_at : ℕ → List Permit → Option Permit
permit_at i [] = none
permit_at zero (p ∷ ps) = some p
permit_at (suc i) (p ∷ ps) = permit_at i ps

admit : List Permit → Breaker × Option Permit → System
admit ps (b, none) = record { breaker = b; in_flight = ps }
admit ps (b, some p) = record { breaker = b; in_flight = p ∷ ps }

settle : System → ℕ → Option Permit → Error → ℕ → System
settle s i none err now = s
settle s i (some p) err now = record {
  breaker = after s.breaker p err now;
  in_flight = remove_at i s.in_flight;
}

unfoldable pub step : System → Event → System
unfolding admit settle
step s (enter now) = admit s.in_flight (before s.breaker now)
step s (return_at i err now) = settle s i (permit_at i s.in_flight) err now
step s (panic_at i) = record s { in_flight = remove_at i s.in_flight }
step s (observe now) = record s { breaker = current s.breaker now }

unfoldable pub run : System → List Event → System
run s [] = s
run s (e ∷ es) = run (step s e) es

unfoldable pub start : Config → System
start cfg = record { breaker = new_breaker cfg; in_flight = [] }

abbrev pub same_flag : Bool → Bool → Bool
same_flag true b = b
same_flag false b = not b

-- The calls in flight of generation `g`: the probes, and the others.
abbrev pub live : Bool → ℕ → List Permit → ℕ
live flag g [] = 0
live flag g (p ∷ ps) =
    let rest = live flag g ps in
    if p.generation == g && same_flag flag p.half_open then suc rest else rest

-- The greatest generation of a call in flight.
abbrev pub newest : List Permit → ℕ
newest [] = 0
newest (p ∷ ps) = max p.generation (newest ps)
