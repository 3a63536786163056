-- ===== src/Tests/RateLimitRuns.antt =====
-- A limiter that lets two requests of a client through in ten nanoseconds.
use dilu_go_kit.Base.{true, ◌||◌, ◌+◌, ◌≤◌, ◌≡◌, refl, List, [], ◌∷◌, some, length, arith, inl}
use Prim.Native.Nat.{min}
use dilu_go_kit.Base.Int.{pos, leb_ℤ, ltb_ℤ}
use dilu_go_kit.Base.Text.{Text, codes, beq}
use dilu_go_kit.Base.Dict.{lookup}
use dilu_go_kit.Mid.Concurrency
use dilu_go_kit.Mid.Concurrency.{acquire, arrive, finish, run-admits}
use dilu_go_kit.Mid.RateLimit.{Limiter, Event, request, tick, new_limiter, run}
use dilu_go_kit.Mid.RateLimit.Window.{entry, passes, requests, Starts, fresh_window}
use dilu_go_kit.Mid.RateLimit.Capacity.{run-capacity}

abbrev limiter : Limiter
limiter = new_limiter (pos 2) (pos 10)

abbrev here : Text
here = codes "10.0.0.1"

abbrev there : Text
there = codes "10.0.0.2"

abbrev history : List Event
history = request there 101 ∷ request here 104 ∷ tick 105 ∷ request here 110 ∷ []

limiter-Starts : Starts limiter here 100
unfolding new_limiter lookup
limiter-Starts = inl (refl, omega arith)

limiter_max : limiter.max ≡ 2
unfolding new_limiter
limiter_max = refl

limiter_window : limiter.window ≡ 10
unfolding new_limiter
limiter_window = refl

fresh_window_example :
    passes limiter here (request here 100 ∷ history) ≡ min (1 + requests here history) limiter.max
fresh_window_example =
    fresh_window limiter here 100 history (omega (arith, limiter_max)) limiter-Starts (
      omega (arith, limiter_window),
      (
        omega (arith, limiter_window),
        (omega (arith, limiter_window), (omega (arith, limiter_window), tt)),
      ),
    )

-- A limiter on which the client has used one of its two requests.
abbrev used : Limiter
used = record {
  max = 2;
  window = 10;
  max_clients = 100_000;
  shards = λ i. (here, record { count = 1; reset_at = 110 }) ∷ [];
}

used-entry : entry used here ≡ some (record { count = 1; reset_at = 110 })
unfolding lookup beq
used-entry = refl

run-capacity_example : length ((run (new_limiter (pos 2) (pos 10)) history).shards 7) ≤ 1563
run-capacity_example = run-capacity (pos 2) (pos 10) history 7

run-admits_example :
    let s =
      Concurrency.run
        (record { limiter = Concurrency.new_limiter (pos 2); running = 0 })
        (arrive ∷ arrive ∷ finish ∷ arrive ∷ []) in
    ((acquire s.limiter).1 ≡ (leb_ℤ (pos 2) (pos 0) || ltb_ℤ (pos s.running) (pos 2)))
    × ((leb_ℤ (pos 2) (pos 0) || leb_ℤ (pos s.running) (pos 2)) ≡ true)
run-admits_example = run-admits (pos 2) (arrive ∷ arrive ∷ finish ∷ arrive ∷ [])
