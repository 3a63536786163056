-- ===== src/Boot/Readiness.antt =====
-- boot/app.go: the answer of /ready, readinessOK with its cache. A probe is one step, since the part
-- of it that runs checks holds readinessEvalMu; a goroutine of a check that ends later is a step of
-- its own. The first look at the cache, which the code takes before it has the mutex, is taken in the
-- same step, with its own time. What the checks do and which case the select takes are inputs, and times are
-- nanoseconds.
pub mod Results
pub mod Evidence
use dilu_go_kit.Base.{
  ℕ, ◌+◌, ◌-◌, suc, zero, List, [], ◌∷◌, ◌++◌, length, Option, none, some, Bool, true, false, ◌&&◌,
  if◌then◌else◌, ltb, ◌==◌,
}
use dilu_go_kit.Base.Int.{ℤ, pos, negsuc, ltb_ℤ}
use dilu_go_kit.Base.Text.{Text, codes}

-- What a check comes to: it is nil, it panics, or it returns, with `none` for nil.
pub data Ending : Type 0 where
  nil_check : Ending
  panicked : Text → Ending
  returned : Option Text → Ending

-- runReadinessCheck
unfoldable pub run_readiness_check : Ending → Option Text
run_readiness_check nil_check = some (codes "nil readiness check")
run_readiness_check (panicked message) = some (codes "readiness check panic: " ++ message)
run_readiness_check (returned e) = e

-- What the select of a round finds: a result, or that the context is done.
pub data Arrival : Type 0 where
  result : Ending → Arrival
  expired : Arrival

-- An evaluation of the checks: when it ended, how many checks were started, and what arrived.
pub record Evaluation : Type 0 where
  pub ended_at : ℕ
  pub started : ℕ
  pub arrivals : List Arrival

-- The fields of App that readinessOK uses, and the evaluations so far. `cached_at` is `none` for the
-- zero time; of readinessChecks the keys.
pub record Readiness : Type 0 where
  pub ttl : ℤ
  pub cached_at : Option ℕ
  pub cached_ok : Bool
  pub checks : List Text
  pub in_flight : ℕ
  pub log : List Evaluation

-- A probe: when it starts, when it has readinessEvalMu, when it stores its result, and what the
-- select of its rounds finds. A round that finds nothing waits for the two seconds of the context.
pub record Probe : Type 0 where
  pub at : ℕ
  pub locked_at : ℕ
  pub done_at : ℕ
  pub arrivals : List Arrival

-- The default of two seconds.
unfoldable pub ttl_of : ℤ → ℤ
ttl_of (pos n) = if n == 0 then pos 2_000_000_000 else pos n
ttl_of (negsuc n) = negsuc n

-- `ttl > 0 && now.Sub(cachedAt) < ttl`
abbrev pub is_fresh : (ttl : ℤ) → (now at : ℕ) → Bool
is_fresh ttl now at = ltb_ℤ (pos 0) ttl && ltb_ℤ (pos (now - at)) ttl

-- The answer of the cache.
unfoldable pub cached : (ttl : ℤ) → (now : ℕ) → Option ℕ → Bool → Option Bool
cached ttl now none ok = none
cached ttl now (some at) ok = if is_fresh ttl now at then some ok else none

abbrev pub is_nil_error : Option Text → Bool
is_nil_error none = true
is_nil_error (some e) = false

-- The loop over the results, with `ok` and `remaining`; `none` where the context ends it.
unfoldable pub collect : (remaining : ℕ) → (ok : Bool) → List Arrival → Option Bool
unfolding run_readiness_check
collect zero ok xs = some ok
collect (suc n) ok [] = none
collect (suc n) ok (expired ∷ xs) = none
collect (suc n) ok (result e ∷ xs) = collect n (ok && is_nil_error (run_readiness_check e)) xs

-- storeReadinessCache
unfoldable pub store_readiness_cache : (now : ℕ) → Bool → Readiness → Readiness
store_readiness_cache now ok r = record r { cached_at = some now; cached_ok = ok }

unfoldable pub conclude : (now : ℕ) → Readiness → Option Bool → Readiness × Bool
unfolding store_readiness_cache
conclude now r none = (r, false)
conclude now r (some ok) = (store_readiness_cache now ok r, ok)

abbrev pub logged : Readiness → Probe → Readiness
logged r p = record r {
  in_flight = r.in_flight + length r.checks;
  log = record { ended_at = p.done_at; started = length r.checks; arrivals = p.arrivals } ∷ r.log;
}

-- What is done under readinessEvalMu, after the cache has been read again.
unfoldable pub evaluate : Readiness → Probe → Readiness × Bool
unfolding conclude collect
evaluate r p =
    if length r.checks == 0
    then conclude p.done_at (logged r p) (some true)
    else if ltb 0 r.in_flight
    then (r, false)
    else conclude p.done_at (logged r p) (collect (length r.checks) true p.arrivals)

unfoldable pub second_look : Readiness → Probe → Option Bool → Readiness × Bool
unfolding evaluate
second_look r p (some ok) = (r, ok)
second_look r p none = evaluate r p

unfoldable pub first_look : Readiness → Probe → Option Bool → Readiness × Bool
unfolding second_look cached ttl_of
first_look r p (some ok) = (r, ok)
first_look r p none = second_look r p (cached (ttl_of r.ttl) p.locked_at r.cached_at r.cached_ok)

-- readinessOK
unfoldable pub readiness_ok : Readiness → Probe → Readiness × Bool
unfolding first_look
readiness_ok r p = first_look r p (cached (ttl_of r.ttl) p.at r.cached_at r.cached_ok)

-- SetReadinessCacheTTL
unfoldable pub set_readiness_cache_ttl : ℤ → Readiness → Readiness
set_readiness_cache_ttl ttl r = record r { ttl = ttl; cached_at = none }

-- What happens: a probe, the end of a check's goroutine, a new limit, and a check that is added.
pub data Event : Type 0 where
  probe : Probe → Event
  leave : Event
  set_ttl : ℤ → Event
  add : Text → Event

unfoldable pub step : Readiness → Event → Readiness
unfolding readiness_ok set_readiness_cache_ttl
step r (probe p) = (readiness_ok r p).0
step r leave = record r { in_flight = r.in_flight - 1 }
step r (set_ttl ttl) = set_readiness_cache_ttl ttl r
step r (add name) = record r { checks = name ∷ r.checks }

unfoldable pub run : Readiness → List Event → Readiness
unfolding step
run r [] = r
run r (e ∷ es) = run (step r e) es

-- A program that has not been probed.
abbrev pub unprobed : List Text → Readiness
unprobed checks = record {
  ttl = pos 0;
  cached_at = none;
  cached_ok = false;
  checks = checks;
  in_flight = 0;
  log = [];
}
