-- ===== src/Tests/BreakerRuns.antt =====
-- A breaker that opens at its second failure, and one whose probe panics.
use dilu_go_kit.Base.{
  ◌+◌, ◌≡◌, refl, ◌<◌, if◌then◌else◌, ◌==◌, List, [], ◌∷◌, none, some, true, false, arith,
}
use dilu_go_kit.Base.Int.{pos}
use dilu_go_kit.Errors.{nil, foreign, is}
use dilu_go_kit.Clientx.Breaker.{
  Breaker, Config, closed, opened, new_breaker, default_should_count, before, after, current,
  do_call,
}
use dilu_go_kit.Clientx.Breaker.Machine.{
  System, Event, enter, return_at, panic_at, observe, start, step, run,
}
use dilu_go_kit.Clientx.Breaker.Invariant.{Inv, run-start-Inv}
use dilu_go_kit.Clientx.Breaker.Calls.{
  Call, calls, Fails, tripped, failed, consecutive_failures, opened_call,
}
use dilu_go_kit.Clientx.Breaker.Stuck.{IsStuck, stuck_forever}

abbrev config : Config
config = record { failure_threshold = pos 2; cooldown = pos 10; should_count = none }

-- Two calls fail, a third one is the probe after the cooldown.
abbrev history : List Event
history =
    enter 1
    ∷ enter 2
    ∷ return_at 1 (foreign 1) 3
    ∷ return_at 0 (foreign 2) 4
    ∷ enter 5
    ∷ observe 14
    ∷ enter 15
    ∷ []

opens : (run (start config) history).breaker.open_until ≡ 14
unfolding run start new_breaker step before after current default_should_count is
opens = refl

probes : (run (start config) history).breaker.half_open_probe ≡ true
unfolding run start new_breaker step before after current default_should_count is
probes = refl

run-start-Inv_example : Inv 7 (run (start config) history)
run-start-Inv_example = run-start-Inv config history (omega arith)

abbrev fresh : Breaker
fresh = new_breaker config

abbrev failing : Call
failing = record { result = foreign 1; starts = 1; ends = 2 }

fresh-closed : fresh.state ≡ closed
unfolding new_breaker
fresh-closed = refl

fresh-Fails : Fails fresh.should_count failing
unfolding new_breaker default_should_count is
fresh-Fails = (refl, refl)

fresh_room : fresh.failures + 1 < fresh.threshold
unfolding new_breaker
fresh_room = omega arith

consecutive_failures_example :
    calls fresh (failing ∷ failing ∷ [])
    ≡ (if fresh.failures + 2 == fresh.threshold then tripped fresh 2 2 else failed fresh 2)
consecutive_failures_example =
    consecutive_failures fresh (failing ∷ []) failing fresh-closed (fresh-Fails, tt) fresh-Fails
      fresh_room

abbrev tripped_breaker : Breaker
tripped_breaker = record {
  state = opened;
  failures = 2;
  threshold = 2;
  open_until = 12;
  cooldown = 10;
  should_count = λ e. true;
  half_open_probe = false;
  generation = 1;
  published = opened;
}

opened_call_example : do_call tripped_breaker nil (some nil) 12 20 ≡ (
  record tripped_breaker { state = closed; failures = 0; generation = 2; published = closed },
  record { result = nil; called = true },
)
opened_call_example =
    opened_call tripped_breaker (record { result = nil; starts = 12; ends = 20 }) refl refl

-- The probe entered, and its operation panicked.
abbrev lost : System
lost = run (record { breaker = tripped_breaker; in_flight = [] }) (enter 12 ∷ panic_at 0 ∷ [])

lost-IsStuck : IsStuck lost
unfolding run step before current
lost-IsStuck = record { waits = refl; flagged = refl; no_probe = refl; no_other = refl }

stuck_forever_example :
    ((run lost (enter 1000 ∷ [])).breaker ≡ lost.breaker)
    × ((before (run lost (enter 1000 ∷ [])).breaker 2000).1 ≡ none)
stuck_forever_example = stuck_forever lost (enter 1000 ∷ []) 2000 lost-IsStuck
