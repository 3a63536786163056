-- ===== src/Stream/Consumer/Backoff.antt =====
-- The delays that the loop sleeps between failed polls.
use dilu_go_kit.Base.{
  ℕ, suc, ◌*◌, ◌^◌, ◌≤◌, ◌≡◌, refl, ap, sym, subst, ◌∙◌, List, [], ◌∷◌, ◌++◌, map, All, arith,
}
use Prim.Native.Nat.{min}
use native.Mathlib.Nat.{pow-suc, mul_assoc}
use dilu_go_kit.Base.Int.{ℤ, pos, ◌≤ℤ◌}
use dilu_go_kit.Stream.Consumer.{
  Options, Loop, fresh, next_backoff, bounded_delay, fail, run_loop, turn,
}
use dilu_go_kit.Stream.Consumer.Outage.{Miss, missed, sleeps, sleeps-append, fail_output}

bounded_delay_bounds :
    (x : ℕ) (d : ℤ) → (pos 0 ≤ℤ bounded_delay (pos x) d) × (bounded_delay (pos x) d ≤ℤ pos x)
unfolding bounded_delay
bounded_delay_bounds x d = ground arith

-- Twice a backoff that is not above the greatest one, cut to that.
next_backoff-min : (b x : ℕ) → b ≤ x → next_backoff (pos b) (pos x) ≡ pos (min (b * 2) x)
unfolding next_backoff
next_backoff-min b x le = ground arith

-- The backoff of the round after `k` failures.
abbrev pub doubled : (i x k : ℕ) → ℕ
doubled i x k = min (i * 2 ^ k) x

doubled-suc : (i x k : ℕ) → min (doubled i x k * 2) x ≡ doubled i x (suc k)
doubled-suc i x k =
    let step : i * 2 ^ suc k ≡ i * 2 ^ k * 2 =
      ap (λ n. i * n) (pow-suc 2 k) ∙ sym (mul_assoc i (2 ^ k) 2) in
    omega (arith, step)

doubled-zero : (i x : ℕ) → i ≤ x → i ≡ doubled i x 0
doubled-zero i x le = omega arith

module _ (i x : ℕ) where
  -- The delays of some failed polls after `k` others, each jittered in its own way.
  abbrev pub delays : ℕ → List Miss → List ℤ
  delays k [] = []
  delays k (m ∷ ms) = bounded_delay (pos x) (m.jitter (pos (doubled i x k))) ∷ delays (suc k) ms

  abbrev pub Within : ℤ → Type 0
  Within d = (pos 0 ≤ℤ d) × (d ≤ℤ pos x)

  delays_bounds : (k : ℕ) (ms : List Miss) → All Within (delays k ms)
  delays_bounds k [] = tt
  delays_bounds k (m ∷ ms) = (bounded_delay_bounds x _, delays_bounds (suc k) ms)

  paced :
      (o : Options) (s : Loop) (k : ℕ) (ms : List Miss)
      → o.max_backoff ≡ pos x
      → s.backoff ≡ pos (doubled i x k)
      → sleeps (run_loop o s (map missed ms)).output ≡ delays k ms
  unfolding run_loop turn
  paced o s k [] top now = refl
  paced o s k (m ∷ ms) top now =
      let (quiet, slept, next) = fail_output o s m in
      let s' = (fail o s m.failure m.at (m.jitter s.backoff)).0 in
      let out = (fail o s m.failure m.at (m.jitter s.backoff)).1 in
      let later : s'.backoff ≡ pos (doubled i x (suc k)) =
        next
        ∙ ap (λ b. next_backoff b o.max_backoff) now
        ∙ ap (next_backoff (pos (doubled i x k))) top
        ∙ next_backoff-min (doubled i x k) x (omega arith)
        ∙ ap pos (doubled-suc i x k) in
      sleeps-append out (run_loop o s' (map missed ms)).output
      ∙ ap (λ l. l ++ sleeps (run_loop o s' (map missed ms)).output) slept
      ∙ ap (λ l. bounded_delay o.max_backoff (m.jitter s.backoff) ∷ l)
          (paced o s' (suc k) ms top later)
      ∙ ap (λ b. bounded_delay b (m.jitter s.backoff) ∷ delays (suc k) ms) top
      ∙ ap (λ b. bounded_delay (pos x) (m.jitter b) ∷ delays (suc k) ms) now

  pub backoff_doubles :
      (o : Options) (last : ℕ) (ms : List Miss)
      → o.initial_backoff ≡ pos i
      → o.max_backoff ≡ pos x
      → i ≤ x
      → (sleeps (run_loop o (fresh o last) (map missed ms)).output ≡ delays 0 ms)
        × All Within (sleeps (run_loop o (fresh o last) (map missed ms)).output)
  unfolding fresh
  backoff_doubles o last ms first top le =
      let law = paced o (fresh o last) 0 ms top (first ∙ ap pos (doubled-zero i x le)) in
      (law, subst (All Within) (sym law) (delays_bounds 0 ms))
