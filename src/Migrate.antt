-- ===== src/Migrate.antt =====
-- contrib/migrate/postgres/migrate.go: nextMigrationVersion, called by many goroutines at once. A
-- turn of a goroutine is one operation on the shared counter, Load or CompareAndSwap. The clock is
-- an input, in nanoseconds since 1970, which stay below 2^63 until the year 2262.
pub mod Order
pub mod Progress
use dilu_go_kit.Base.{ℕ, ◌+◌, List, [], ◌∷◌, Bool, if◌then◌else◌, leb, ◌==◌}

-- Where a goroutine stands: outside of the function, at the head of the loop with its candidate, or
-- before the CompareAndSwap with the value that it has loaded.
pub data Worker : Type 0 where
  idle : Worker
  looping : (candidate : ℕ) → Worker
  loaded : (previous candidate : ℕ) → Worker

-- lastMigrationVersion, the goroutines by their numbers, and the versions handed out, the last one
-- first.
pub record World : Type 0 where
  pub last : ℕ
  pub workers : ℕ → Worker
  pub issued : List ℕ

abbrev pub set_worker : ℕ → Worker → (ℕ → Worker) → ℕ → Worker
set_worker i w ws j = if j == i then w else ws j

-- `if candidate <= previous { candidate = previous + 1 }`
abbrev pub above : (candidate previous : ℕ) → ℕ
above candidate previous = if leb candidate previous then previous + 1 else candidate

abbrev pub move : ℕ → World → Worker → World
move i s w = record s { workers = set_worker i w s.workers }

-- The rest of a round of the loop: the CompareAndSwap.
unfoldable pub compare_and_swap : ℕ → (previous candidate : ℕ) → World → World
compare_and_swap i previous candidate s =
    if s.last == previous
    then record s {
      last = candidate;
      workers = set_worker i idle s.workers;
      issued = candidate ∷ s.issued;
    }
    else move i s (looping candidate)

-- A turn of the goroutine i, which stands at the given point.
unfoldable pub turn : ℕ → World → Worker → World
unfolding compare_and_swap
turn i s idle = s
turn i s (looping candidate) = move i s (loaded s.last (above candidate s.last))
turn i s (loaded previous candidate) = compare_and_swap i previous candidate s

-- A goroutine calls the function at a time, or takes a turn.
pub data Event : Type 0 where
  call : ℕ → (now : ℕ) → Event
  go : ℕ → Event

unfoldable pub enter : ℕ → (now : ℕ) → World → Worker → World
enter i now s idle = move i s (looping now)
enter i now s (looping candidate) = s
enter i now s (loaded previous candidate) = s

unfoldable pub step : World → Event → World
unfolding enter turn
step s (call i now) = enter i now s (s.workers i)
step s (go i) = turn i s (s.workers i)

unfoldable pub run : World → List Event → World
unfolding step
run s [] = s
run s (e ∷ es) = run (step s e) es

-- The program at its start.
abbrev pub start : World
start = record { last = 0; workers = λ i. idle; issued = [] }
