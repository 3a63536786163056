-- ===== src/Tests/ReadinessRuns.antt =====
-- Two checks: a probe that evaluates them, one that the cache answers, and one that comes before the
-- goroutines of the checks have ended.
use dilu_go_kit.Base.{ℕ, ◌+◌, ◌≤◌, ◌≡◌, refl, List, [], ◌∷◌, length, none, some, Bool, true, false}
use dilu_go_kit.Base.Int.{negsuc}
use dilu_go_kit.Base.Text.{Text, codes}
use dilu_go_kit.Boot.Readiness.{
  Arrival, result, returned, run_readiness_check, Probe, Event, probe, leave, set_ttl, ttl_of,
  cached, collect, store_readiness_cache, conclude, evaluate, second_look, first_look, readiness_ok,
  set_readiness_cache_ttl, step, run, unprobed,
}
use dilu_go_kit.Boot.Readiness.Results.{AllPassed}
use dilu_go_kit.Boot.Readiness.Evidence.{Grounds, CacheSilent, ready_answer}

abbrev all_well : List Arrival
all_well = result (returned none) ∷ result (returned none) ∷ []

abbrev probe_at : ℕ → List Arrival → Probe
probe_at now arrivals = record { at = now; locked_at = now; done_at = now + 1; arrivals = arrivals }

abbrev two : List Text
two = codes "db" ∷ codes "cache" ∷ []

abbrev answer : List Event → Probe → Bool
answer es p = (readiness_ok (run (unprobed two) es) p).1

from_cache : answer (probe (probe_at 5 all_well) ∷ []) (probe_at 1_000 []) ≡ true
unfolding readiness_ok first_look second_look evaluate conclude collect cached ttl_of
    run_readiness_check store_readiness_cache step run
from_cache = refl

one_fails :
    answer [] (probe_at 5 (result (returned none) ∷ result (returned (some [])) ∷ [])) ≡ false
unfolding readiness_ok first_look second_look evaluate conclude collect cached ttl_of
    run_readiness_check store_readiness_cache run
one_fails = refl

-- Without a cache a program that is ready is reported as not ready, since a check sends its result
-- before it leaves the count of running checks.
too_early :
    answer (set_ttl (negsuc 0) ∷ probe (probe_at 5 all_well) ∷ []) (probe_at 7 all_well) ≡ false
unfolding readiness_ok first_look second_look evaluate conclude collect cached ttl_of
    run_readiness_check store_readiness_cache step run set_readiness_cache_ttl
too_early = refl

ready_answer_example :
    let r = run (unprobed two) (probe (probe_at 5 all_well) ∷ leave ∷ leave ∷ []) in
    let p = probe_at 3_000_000_000 all_well in
    let after = readiness_ok r p in
    (after.1 ≡ true → Grounds (ttl_of r.ttl) p after.0.log)
    × (after.0.in_flight ≤ length after.0.checks)
    × (CacheSilent r p → r.in_flight ≡ 0 → AllPassed (length r.checks) p.arrivals → after.1 ≡ true)
ready_answer_example =
    ready_answer two (probe (probe_at 5 all_well) ∷ leave ∷ leave ∷ [])
      (probe_at 3_000_000_000 all_well)
