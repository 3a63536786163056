-- ===== src/Migrate/Order.antt =====
-- The versions of migrations rise, whatever the clock says and however the goroutines interleave.
use dilu_go_kit.Base.{ℕ, ◌+◌, ◌<◌, ◌≤◌, List, [], ◌∷◌, ◌==◌, arith, if_cases}
use dilu_go_kit.Migrate.{
  Worker, idle, looping, loaded, World, above, move, compare_and_swap, turn, Event, call, go, enter,
  step, run, start,
}

-- The numbers fall from one to the next, starting below the bound.
abbrev pub FallFrom : ℕ → List ℕ → Type 0
FallFrom bound [] = Unit {0}
FallFrom bound (v ∷ vs) = (v < bound) × FallFrom v vs

-- Each version is greater than the one that was handed out before it.
abbrev pub Rising : List ℕ → Type 0
Rising [] = Unit {0}
Rising (v ∷ vs) = FallFrom v vs

-- A goroutine about to swap has a candidate above the value it has loaded.
abbrev pub Ahead : Worker → Type 0
Ahead idle = Unit {0}
Ahead (looping candidate) = Unit {0}
Ahead (loaded previous candidate) = previous < candidate

pub record Inv (s : World) : Type 0 where
  pub rising : FallFrom (s.last + 1) s.issued
  pub ahead : (i : ℕ) → Ahead (s.workers i)

FallFrom-more : (a b : ℕ) (vs : List ℕ) → a ≤ b → FallFrom a vs → FallFrom b vs
FallFrom-more a b [] h f = tt
FallFrom-more a b (v ∷ vs) h f = (omega (arith, h, f.0), f.1)

pub FallFrom-Rising : (a : ℕ) (vs : List ℕ) → FallFrom a vs → Rising vs
FallFrom-Rising a [] f = tt
FallFrom-Rising a (v ∷ vs) f = f.1

pub above_lem : (candidate previous : ℕ) → previous < above candidate previous
above_lem candidate previous = ground arith

moved : (i : ℕ) (s : World) (w : Worker) → Inv s → Ahead w → Inv (move i s w)
moved i s w inv h = record {
  rising = inv.rising;
  ahead = λ j. if_cases Ahead (j == i) (λ _. h) (λ _. inv.ahead j);
}

swapped :
    (i previous candidate : ℕ) (s : World)
    → previous < candidate
    → Inv s
    → Inv (compare_and_swap i previous candidate s)
unfolding compare_and_swap
swapped i previous candidate s h inv =
    if_cases Inv (s.last == previous)
      (λ same. record {
        rising = (
          omega arith,
          FallFrom-more (s.last + 1) candidate s.issued (ground (arith, same, h)) inv.rising,
        );
        ahead = λ j. if_cases Ahead (j == i) (λ _. tt) (λ _. inv.ahead j);
      })
      (λ other. moved i s (looping candidate) inv tt)

turn-Inv : (i : ℕ) (s : World) (w : Worker) → Ahead w → Inv s → Inv (turn i s w)
unfolding turn
turn-Inv i s idle h inv = inv
turn-Inv i s (looping candidate) h inv =
    moved i s (loaded s.last (above candidate s.last)) inv (above_lem candidate s.last)
turn-Inv i s (loaded previous candidate) h inv = swapped i previous candidate s h inv

enter-Inv : (i now : ℕ) (s : World) (w : Worker) → Inv s → Inv (enter i now s w)
unfolding enter
enter-Inv i now s idle inv = moved i s (looping now) inv tt
enter-Inv i now s (looping candidate) inv = inv
enter-Inv i now s (loaded previous candidate) inv = inv

step-Inv : (s : World) (e : Event) → Inv s → Inv (step s e)
unfolding step
step-Inv s (call i now) inv = enter-Inv i now s (s.workers i) inv
step-Inv s (go i) inv = turn-Inv i s (s.workers i) (inv.ahead i) inv

pub run-Inv : (s : World) (es : List Event) → Inv s → Inv (run s es)
unfolding run
run-Inv s [] inv = inv
run-Inv s (e ∷ es) inv = run-Inv (step s e) es (step-Inv s e inv)

pub start-Inv : Inv start
start-Inv = record { rising = tt; ahead = λ i. tt }
