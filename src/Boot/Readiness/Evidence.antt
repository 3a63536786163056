-- ===== src/Boot/Readiness/Evidence.antt =====
-- What stands behind a positive answer of /ready, and how many checks run at once.
use dilu_go_kit.Base.{
  ℕ, ◌≤◌, ◌≡◌, refl, ap, ◌∙◌, ◌⊎◌, inl, inr, List, [], ◌∷◌, length, Option, none, some, Bool, true,
  false, ltb, ◌==◌, arith, Bool-cases, if_cases,
}
use dilu_go_kit.Base.Int.{ℤ}
use dilu_go_kit.Base.Text.{Text}
use dilu_go_kit.Boot.Readiness.{
  Evaluation, Readiness, Probe, ttl_of, is_fresh, cached, collect, store_readiness_cache, conclude,
  logged, evaluate, second_look, first_look, readiness_ok, set_readiness_cache_ttl, Event, probe,
  leave, set_ttl, add, step, run, unprobed,
}
use dilu_go_kit.Boot.Readiness.Results.{AllPassed, collect_passed, none_started, passed-collect}

-- One of the evaluations ended at the time, and all of its checks passed.
abbrev pub Proved : ℕ → List Evaluation → Type 0
Proved t [] = ⊥
Proved t (e ∷ es) = ((e.ended_at ≡ t) × AllPassed e.started e.arrivals) ⊎ Proved t es

-- A positive result in the cache has been proved.
abbrev Backed : Option ℕ → Bool → List Evaluation → Type 0
Backed none ok es = Unit {0}
Backed (some t) false es = Unit {0}
Backed (some t) true es = Proved t es

abbrev Inv : Readiness → Type 0
Inv r = Backed r.cached_at r.cached_ok r.log × (r.in_flight ≤ length r.checks)

Backed-cons :
    (e : Evaluation) (at : Option ℕ) (ok : Bool) (es : List Evaluation)
    → Backed at ok es
    → Backed at ok (e ∷ es)
Backed-cons e none ok es h = tt
Backed-cons e (some t) false es h = tt
Backed-cons e (some t) true es h = inr h

-- After a probe: the invariant, and what a positive answer rests on.
abbrev Sound : Probe → Readiness × Bool → Type 0
Sound p (r, answer) = Inv r × (answer ≡ true → Proved p.done_at r.log)

conclude-Sound :
    (p : Probe) (r : Readiness) (o : Option Bool)
    → Inv r
    → (o ≡ some true → Proved p.done_at r.log)
    → Sound p (conclude p.done_at r o)
unfolding conclude store_readiness_cache
conclude-Sound p r none (backed, bound) h = ((backed, bound), λ e. cc)
conclude-Sound p r (some true) (backed, bound) h = ((h refl, bound), λ e. h refl)
conclude-Sound p r (some false) (backed, bound) h = ((tt, bound), λ e. cc)

logged-Inv : (r : Readiness) (p : Probe) → Inv r → ltb 0 r.in_flight ≡ false → Inv (logged r p)
logged-Inv r p (backed, bound) h =
    (Backed-cons _ r.cached_at r.cached_ok r.log backed, ground (arith, h))

evaluate-Sound : (r : Readiness) (p : Probe) → Inv r → Sound p (evaluate r p)
unfolding evaluate
evaluate-Sound r p inv =
    if_cases {A = Readiness × Bool} (Sound p) (length r.checks == 0)
      (λ e.
        conclude-Sound p (logged r p) (some true) (logged-Inv r p inv (ground (arith, e, inv.1)))
          (λ _. inl (refl, none_started (length r.checks) p.arrivals e)))
      (λ e.
        if_cases {A = Readiness × Bool} (Sound p) (ltb 0 r.in_flight) (λ busy. (inv, λ wrong. cc))
          (λ idle.
            conclude-Sound p (logged r p) (collect (length r.checks) true p.arrivals)
              (logged-Inv r p inv idle)
              (λ all. inl (refl, collect_passed (length r.checks) p.arrivals all))))

-- A positive answer rests on an evaluation in which all checks passed: the one of this probe, or
-- one that the cache still holds.
abbrev pub Grounds : (ttl : ℤ) → Probe → List Evaluation → Type 0
Grounds ttl p log =
    (t : ℕ) × Proved t log
    × ((t ≡ p.done_at) ⊎ ((is_fresh ttl p.at t ≡ true) ⊎ (is_fresh ttl p.locked_at t ≡ true)))

abbrev Answered : ℤ → Probe → Readiness × Bool → Type 0
Answered ttl p (r, answer) = Inv r × (answer ≡ true → Grounds ttl p r.log)

cached_fresh :
    (ttl : ℤ) (now : ℕ) (at : Option ℕ) (ok : Bool) (es : List Evaluation)
    → Backed at ok es
    → cached ttl now at ok ≡ some true
    → (t : ℕ) × Proved t es × (is_fresh ttl now t ≡ true)
unfolding cached
cached_fresh ttl now none ok es backed h = cc
cached_fresh ttl now (some t) true es backed h = elim (Bool-cases (is_fresh ttl now t)) [
  | inl e ↦ (t, backed, e)
  | inr e ↦ let wrong = rw e at h in cc
]
cached_fresh ttl now (some t) false es backed h = elim (Bool-cases (is_fresh ttl now t)) [
  | inl e ↦ let wrong = rw e at h in cc
  | inr e ↦ let wrong = rw e at h in cc
]

second-Answered :
    (r : Readiness) (p : Probe) (o : Option Bool)
    → Inv r
    → cached (ttl_of r.ttl) p.locked_at r.cached_at r.cached_ok ≡ o
    → Answered (ttl_of r.ttl) p (second_look r p o)
unfolding second_look
second-Answered r p (some ok) inv h = (
  inv,
  λ positive.
      let (t, proved, fresh) =
        cached_fresh (ttl_of r.ttl) p.locked_at r.cached_at r.cached_ok r.log inv.0
          (h ∙ ap some positive) in
      (t, proved, inr (inr fresh)),
)
second-Answered r p none inv h =
    let s = evaluate-Sound r p inv in (s.0, λ positive. (p.done_at, s.1 positive, inl refl))

first-Answered :
    (r : Readiness) (p : Probe) (o : Option Bool)
    → Inv r
    → cached (ttl_of r.ttl) p.at r.cached_at r.cached_ok ≡ o
    → Answered (ttl_of r.ttl) p (first_look r p o)
unfolding first_look
first-Answered r p (some ok) inv h = (
  inv,
  λ positive.
      let (t, proved, fresh) =
        cached_fresh (ttl_of r.ttl) p.at r.cached_at r.cached_ok r.log inv.0
          (h ∙ ap some positive) in
      (t, proved, inr (inl fresh)),
)
first-Answered r p none inv h =
    second-Answered r p (cached (ttl_of r.ttl) p.locked_at r.cached_at r.cached_ok) inv refl

readiness_ok-Answered :
    (r : Readiness) (p : Probe) → Inv r → Answered (ttl_of r.ttl) p (readiness_ok r p)
unfolding readiness_ok
readiness_ok-Answered r p inv =
    first-Answered r p (cached (ttl_of r.ttl) p.at r.cached_at r.cached_ok) inv refl

step-Inv : (r : Readiness) (e : Event) → Inv r → Inv (step r e)
unfolding step set_readiness_cache_ttl
step-Inv r (probe p) inv = (readiness_ok-Answered r p inv).0
step-Inv r leave inv = (inv.0, omega (arith, inv.1))
step-Inv r (set_ttl ttl) inv = (tt, inv.1)
step-Inv r (add name) inv = (inv.0, omega (arith, inv.1))

run-Inv : (r : Readiness) (es : List Event) → Inv r → Inv (run r es)
unfolding run
run-Inv r [] inv = inv
run-Inv r (e ∷ es) inv = run-Inv (step r e) es (step-Inv r e inv)

conclude_ready :
    (now : ℕ) (r : Readiness) (o : Option Bool) → o ≡ some true → (conclude now r o).1 ≡ true
unfolding conclude
conclude_ready now r none h = cc
conclude_ready now r (some ok) h = cc

evaluate_ready :
    (r : Readiness) (p : Probe)
    → r.in_flight ≡ 0
    → AllPassed (length r.checks) p.arrivals
    → (evaluate r p).1 ≡ true
unfolding evaluate
evaluate_ready r p idle passed =
    if_cases {A = Readiness × Bool} (λ x. x.1 ≡ true) (length r.checks == 0)
      (λ e. conclude_ready p.done_at (logged r p) (some true) refl)
      (λ e.
        if_cases {A = Readiness × Bool} (λ x. x.1 ≡ true) (ltb 0 r.in_flight)
          (λ busy. absurd (ground (arith, busy, idle)))
          (λ free.
            conclude_ready p.done_at (logged r p) (collect (length r.checks) true p.arrivals)
              (passed-collect (length r.checks) p.arrivals passed)))

-- Neither look at the cache finds an answer.
abbrev pub CacheSilent : Readiness → Probe → Type 0
CacheSilent r p =
    (cached (ttl_of r.ttl) p.at r.cached_at r.cached_ok ≡ none)
    × (cached (ttl_of r.ttl) p.locked_at r.cached_at r.cached_ok ≡ none)

uncached_ready :
    (r : Readiness) (p : Probe)
    → CacheSilent r p
    → r.in_flight ≡ 0
    → AllPassed (length r.checks) p.arrivals
    → (readiness_ok r p).1 ≡ true
unfolding readiness_ok first_look second_look
uncached_ready r p (first, second) idle passed = rw (first, second) (evaluate_ready r p idle passed)

-- Whatever happened since the start, probes, checks that end late, checks that are added and limits
-- that are set: a probe that is answered with ready rests on an evaluation in which every check that
-- was registered returned nil, and which is the probe's own or ended less than the limit of the
-- cache before the cache was read; and after the probe no more checks run than are registered. If the
-- cache has no answer, no check is still running and all checks return nil, the answer is ready.
pub ready_answer :
    (checks : List Text) (es : List Event) (p : Probe)
    → let r = run (unprobed checks) es in
      let after = readiness_ok r p in
      (after.1 ≡ true → Grounds (ttl_of r.ttl) p after.0.log)
      × (after.0.in_flight ≤ length after.0.checks)
      × (CacheSilent r p
          → r.in_flight ≡ 0
          → AllPassed (length r.checks) p.arrivals
          → after.1 ≡ true)
ready_answer checks es p =
    let r = run (unprobed checks) es in
    let s = readiness_ok-Answered r p (run-Inv (unprobed checks) es (tt, omega arith)) in
    (s.1, s.0.1, uncached_ready r p)
