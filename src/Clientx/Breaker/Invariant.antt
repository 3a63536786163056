-- ===== src/Clientx/Breaker/Invariant.antt =====
-- What holds of the breaker whatever the order in which calls enter and return.
use dilu_go_kit.Base.{
  ℕ, zero, suc, ◌+◌, ◌^◌, ◌≤◌, ◌<◌, ◌≡◌, ◌≢◌, refl, Bool, true, false, some, List, [], ◌∷◌, arith,
  length, Option-cases, inl, inr,
}
use native.Mathlib.Nat.{add-zero, zero-add}
use dilu_go_kit.Base.{subst}
use dilu_go_kit.Errors.{Error}
use dilu_go_kit.Clientx.Breaker.{
  closed, opened, half_open, Permit, Config, new_breaker, current, before, after,
}
use dilu_go_kit.Clientx.Breaker.Machine.{
  System, Event, enter, return_at, panic_at, observe, remove_at, permit_at, step, run, start, live,
  newest,
}

abbrev pub flag_count : Bool → ℕ
flag_count true = 1
flag_count false = 0

pub record Inv (k : ℕ) (s : System) : Type 0 where
  pub threshold_pos : 0 < s.breaker.threshold
  pub below : s.breaker.state ≡ closed → s.breaker.failures < s.breaker.threshold
  pub no_probe : s.breaker.state ≢ half_open → s.breaker.half_open_probe ≡ false
  pub one_probe : live true s.breaker.generation s.in_flight ≤ flag_count s.breaker.half_open_probe
  pub stale : s.breaker.state ≢ closed → live false s.breaker.generation s.in_flight ≡ 0
  pub young : s.breaker.generation ≤ k
  pub older : newest s.in_flight ≤ s.breaker.generation
  pub gauge_closed : s.breaker.state ≡ closed → s.breaker.published ≡ closed
  pub gauge_open : s.breaker.state ≢ closed → s.breaker.published ≡ opened

live_above : (f : Bool) (g : ℕ) (ps : List Permit) → newest ps < g → live f g ps ≡ 0
live_above f g [] l = refl
live_above f g (p ∷ ps) l = ground (arith, live_above f g ps)

pub live-remove_at-le :
    (f : Bool) (g i : ℕ) (ps : List Permit) → live f g (remove_at i ps) ≤ live f g ps
live-remove_at-le f g i [] = omega arith
live-remove_at-le f g zero (p ∷ ps) = ground arith
live-remove_at-le f g (suc i) (p ∷ ps) = ground (arith, live-remove_at-le f g i ps)

newest-remove_at-le : (i : ℕ) (ps : List Permit) → newest (remove_at i ps) ≤ newest ps
newest-remove_at-le i [] = omega arith
newest-remove_at-le zero (p ∷ ps) = omega arith
newest-remove_at-le (suc i) (p ∷ ps) = omega (arith, newest-remove_at-le i ps)

-- Removing a live call of the kind `f` leaves one less.
live-remove_at_self :
    (f : Bool) (g i : ℕ) (ps : List Permit) (p : Permit)
    → permit_at i ps ≡ some p
    → p.generation ≡ g
    → p.half_open ≡ f
    → suc (live f g (remove_at i ps)) ≡ live f g ps
live-remove_at_self f g i [] p e eg ef = cc
live-remove_at_self f g zero (q ∷ ps) p e eg ef = ground arith
live-remove_at_self f g (suc i) (q ∷ ps) p e eg ef =
    ground (arith, live-remove_at_self f g i ps p e eg ef)

-- If no call of the generation `g` is in flight, a call in flight is of another one.
pub live-permit_at :
    (g i : ℕ) (ps : List Permit) (p : Permit)
    → permit_at i ps ≡ some p
    → live true g ps ≡ 0
    → live false g ps ≡ 0
    → p.generation ≢ g
live-permit_at g i [] p e t f = cc
live-permit_at g zero (q ∷ ps) p e t f = ground arith
live-permit_at g (suc i) (q ∷ ps) p e t f = ground (arith, live-permit_at g i ps p e)

start-Inv : (cfg : Config) → Inv 0 (start cfg)
unfolding start new_breaker
start-Inv cfg = ground arith

observe-Inv : (k : ℕ) (s : System) (now : ℕ) → Inv k s → Inv k (step s (observe now))
unfolding step current
observe-Inv k s now v = ground arith

enter-Inv : (k : ℕ) (s : System) (now : ℕ) → Inv k s → Inv k (step s (enter now))
unfolding step before
enter-Inv k s now v = ground arith

panic-Inv : (k i : ℕ) (s : System) → Inv k s → Inv k (step s (panic_at i))
unfolding step
panic-Inv k i s v = ground (
  arith,
  live-remove_at-le true s.breaker.generation i s.in_flight,
  live-remove_at-le false s.breaker.generation i s.in_flight,
  newest-remove_at-le i s.in_flight,
)

-- The call that returns, with what its removal does to the counts.
settle-Inv :
    (k i : ℕ) (s : System) (p : Permit) (err : Error) (now : ℕ)
    → Inv k s
    → suc k < 2 ^ 64
    → permit_at i s.in_flight ≡ some p
    → Inv
        (suc k)
        (record { breaker = after s.breaker p err now; in_flight = remove_at i s.in_flight })
unfolding after
settle-Inv k i s p err now v room e = ground (
  arith,
  live-remove_at-le true s.breaker.generation i s.in_flight,
  live-remove_at-le false s.breaker.generation i s.in_flight,
  live-remove_at_self p.half_open s.breaker.generation i s.in_flight p e,
  newest-remove_at-le i s.in_flight,
  live_above true (suc s.breaker.generation) (remove_at i s.in_flight),
  live_above false (suc s.breaker.generation) (remove_at i s.in_flight),
)

Inv-suc : (k : ℕ) (s : System) → Inv k s → Inv (suc k) s
Inv-suc k s v = ground arith

return-Inv :
    (k i : ℕ) (s : System) (err : Error) (now : ℕ)
    → Inv k s
    → suc k < 2 ^ 64
    → Inv (suc k) (step s (return_at i err now))
unfolding step
return-Inv k i s err now v room = elim (Option-cases (permit_at i s.in_flight)) [
  | inl e ↦ rw (e, step) (Inv-suc k s v)
  | inr (p, e) ↦ rw (e, step) (settle-Inv k i s p err now v room e)
]

step-Inv : (k : ℕ) (s : System) (e : Event) → Inv k s → suc k < 2 ^ 64 → Inv (suc k) (step s e)
step-Inv k s (enter now) v room = Inv-suc k _ (enter-Inv k s now v)
step-Inv k s (return_at i err now) v room = return-Inv k i s err now v room
step-Inv k s (panic_at i) v room = Inv-suc k _ (panic-Inv k i s v)
step-Inv k s (observe now) v room = Inv-suc k _ (observe-Inv k s now v)

run-Inv :
    (k : ℕ) (s : System) (es : List Event)
    → Inv k s
    → k + length es < 2 ^ 64
    → Inv (k + length es) (run s es)
unfolding run
run-Inv k s [] v room = rw add-zero v
run-Inv k s (e ∷ es) v room =
    subst (λ n. Inv n (run (step s e) es)) (omega arith)
      (run-Inv (suc k) (step s e) es (step-Inv k s e v (omega arith)) (omega arith))

-- After any interleaving of fewer than 2^64 events from a new breaker, whatever the configuration:
-- a closed breaker has counted fewer failures than its threshold, which is positive; the probe flag
-- is down outside the half-open state; at most one call in flight of the current generation is a
-- probe, and none if the flag is down; outside the closed state no other call in flight is of the
-- current generation; and the published state is closed exactly when the breaker is, and opened
-- otherwise.
pub run-start-Inv :
    (cfg : Config) (es : List Event) → length es < 2 ^ 64 → Inv (length es) (run (start cfg) es)
run-start-Inv cfg es room =
    subst (λ n. Inv n (run (start cfg) es)) (zero-add (length es))
      (run-Inv 0 (start cfg) es (start-Inv cfg) (omega arith))
