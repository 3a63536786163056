-- ===== src/Clientx/Breaker/Stuck.antt =====
-- A half-open breaker whose probe never reported back.
use dilu_go_kit.Base.{
  ℕ, ◌≡◌, refl, ◌∙◌, true, false, none, List, [], ◌∷◌, arith, inl, inr, Option-cases,
}
use dilu_go_kit.Clientx.Breaker.{half_open, current, before, after}
use dilu_go_kit.Clientx.Breaker.Machine.{
  System, Event, enter, return_at, panic_at, observe, permit_at, step, run, live,
}
use dilu_go_kit.Clientx.Breaker.Invariant.{live-remove_at-le, live-permit_at}

-- The probe flag is up and no call in flight can take it down.
pub record IsStuck (s : System) : Type 0 where
  pub waits : s.breaker.state ≡ half_open
  pub flagged : s.breaker.half_open_probe ≡ true
  pub no_probe : live true s.breaker.generation s.in_flight ≡ 0
  pub no_other : live false s.breaker.generation s.in_flight ≡ 0

step-IsStuck :
    (s : System) (e : Event) → IsStuck s → IsStuck (step s e) × ((step s e).breaker ≡ s.breaker)
unfolding step before current after
step-IsStuck s (enter now) h = ground arith
step-IsStuck s (return_at i err now) h = elim (Option-cases (permit_at i s.in_flight)) [
  | inl e ↦ rw (e, step) (h, refl)
  | inr (p, e) ↦
      rw (e, step)
        (ground (
          arith,
          live-permit_at s.breaker.generation i s.in_flight p e,
          live-remove_at-le true s.breaker.generation i s.in_flight,
          live-remove_at-le false s.breaker.generation i s.in_flight,
        ))
]
step-IsStuck s (panic_at i) h = ground (
  arith,
  live-remove_at-le true s.breaker.generation i s.in_flight,
  live-remove_at-le false s.breaker.generation i s.in_flight,
)
step-IsStuck s (observe now) h = ground arith

run-IsStuck :
    (s : System) (es : List Event)
    → IsStuck s
    → IsStuck (run s es) × ((run s es).breaker ≡ s.breaker)
unfolding run
run-IsStuck s [] h = (h, refl)
run-IsStuck s (e ∷ es) h =
    let (h', same) = step-IsStuck s e h in
    let (h'', rest) = run-IsStuck (step s e) es h' in (h'', rest ∙ same)

rejects : (s : System) (now : ℕ) → IsStuck s → (before s.breaker now).1 ≡ none
unfolding before
rejects s now h = ground arith

-- A half-open breaker whose probe flag is up while no call in flight is of its generation, as when
-- the operation of the probe panicked, never changes again and refuses every later call, whatever
-- happens and however much time passes.
pub stuck_forever :
    (s : System) (es : List Event) (now : ℕ)
    → IsStuck s
    → ((run s es).breaker ≡ s.breaker) × ((before (run s es).breaker now).1 ≡ none)
stuck_forever s es now h = let (h', same) = run-IsStuck s es h in (same, rejects (run s es) now h')
