-- ===== src/Clientx/Retry/Config.antt =====
-- The bounds that normalizeRetryConfig enforces.
use dilu_go_kit.Base.{ℕ, zero, suc, ◌≤◌, if◌then◌else◌, ◌≡◌, refl, Bool, false, some, arith}
use dilu_go_kit.Base.Int.{ℤ, pos, negsuc, ◌≤ℤ◌, ltb_ℤ, clamped, clamped_again}
use dilu_go_kit.Base.Float.{Float64}
use dilu_go_kit.Errors.{Error}
use dilu_go_kit.Clientx.Retry.{RetryConfig, normalize, or_default, clamp_multiplier, clamp_jitter}

budget_again :
    (v : ℤ)
    → let w = if ltb_ℤ v (pos 0) then pos 0 else v in (if ltb_ℤ w (pos 0) then pos 0 else w) ≡ w
budget_again v = ground arith

abbrev initial_of : ℤ → ℤ
initial_of = clamped (pos 100_000_000) (pos 60_000_000_000)

abbrev max_of : ℤ → ℤ → ℤ
max_of i m =
    let cap = clamped (pos 1_000_000_000) (pos 300_000_000_000) m in
    if ltb_ℤ cap (initial_of i) then initial_of i else cap

max_again : (i m : ℤ) → max_of (initial_of i) (max_of i m) ≡ max_of i m
max_again i m = ground arith

module _ (f : Float64) where
  pub record IsBounded (cfg : RetryConfig f) : Type 0 where
    pub attempts_low : pos 1 ≤ℤ cfg.max_attempts
    pub attempts_high : cfg.max_attempts ≤ℤ pos 5
    pub initial_low : pos 1 ≤ℤ cfg.initial_backoff
    pub initial_high : cfg.initial_backoff ≤ℤ cfg.max_backoff
    pub max_high : cfg.max_backoff ≤ℤ pos 300_000_000_000
    pub budget_low : pos 0 ≤ℤ cfg.budget
    pub multiplier_low : f.leb cfg.multiplier f.zero ≡ false
    pub multiplier_high : f.ltb f.ten cfg.multiplier ≡ false
    pub jitter_high : f.ltb f.one cfg.jitter_fraction ≡ false

  normalize-IsBounded :
      (default : Error → Bool) (cfg : RetryConfig f) → IsBounded (normalize f default cfg)
  unfolding normalize
  normalize-IsBounded default cfg = ground (
    arith, f.not_two_le_zero, f.not_ten_le_zero, f.not_ten_lt_two, f.not_ten_lt_ten,
    f.not_one_lt_one, f.not_one_lt_fifth, f.not_one_lt_zero,
  )

  multiplier_again : (m : f.F) → clamp_multiplier f (clamp_multiplier f m) ≡ clamp_multiplier f m
  unfolding clamp_multiplier
  multiplier_again m =
      ground (arith, f.not_two_le_zero, f.not_ten_le_zero, f.not_ten_lt_two, f.not_ten_lt_ten)

  jitter_again : (b : Bool) (j : f.F) → clamp_jitter f b (clamp_jitter f b j) ≡ clamp_jitter f b j
  unfolding clamp_jitter
  jitter_again b j = ground (
    arith, f.not_one_le_zero, f.not_fifth_le_zero, f.not_one_lt_one, f.not_one_lt_fifth,
    f.not_one_lt_zero,
  )

  normalize_again :
      (default : Error → Bool) (cfg : RetryConfig f)
      → normalize f default (normalize f default cfg) ≡ normalize f default cfg
  unfolding normalize
  normalize_again default cfg = λ i. record {
    max_attempts = clamped_again 3 5 cfg.max_attempts (omega arith) i;
    budget = budget_again cfg.budget i;
    initial_backoff = clamped_again 100_000_000 60_000_000_000 cfg.initial_backoff (omega arith) i;
    max_backoff = max_again cfg.initial_backoff cfg.max_backoff i;
    multiplier = multiplier_again cfg.multiplier i;
    retryable = some (or_default default cfg.retryable);
    jitter_fraction = jitter_again cfg.disable_jitter cfg.jitter_fraction i;
    disable_jitter = cfg.disable_jitter;
  }

  -- The configuration that normalizeRetryConfig returns is within its bounds whatever it was given
  -- (between 1 and 5 attempts, a positive first backoff that is at most the greatest one, that one at
  -- most five minutes, a budget that is not negative, a multiplier neither at most 0 nor above 10, a
  -- jitter not above 1), and normalizing it once more changes nothing.
  pub normalize_idem :
      (default : Error → Bool) (cfg : RetryConfig f)
      → IsBounded (normalize f default cfg)
        × (normalize f default (normalize f default cfg) ≡ normalize f default cfg)
  normalize_idem default cfg = (normalize-IsBounded default cfg, normalize_again default cfg)

small_positive : (v : ℤ) → pos 1 ≤ℤ v → v ≤ℤ pos 5 → (n : ℕ) × (v ≡ pos (suc n)) × (n ≤ 4)
small_positive (pos zero) low high = absurd (omega arith)
small_positive (pos (suc n)) low high = (n, refl, omega arith)
small_positive (negsuc n) low high = absurd (omega arith)

pub attempts_form :
    (f : Float64) (default : Error → Bool) (cfg : RetryConfig f)
    → (n : ℕ) × ((normalize f default cfg).max_attempts ≡ pos (suc n)) × (n ≤ 4)
attempts_form f default cfg =
    let b = normalize-IsBounded f default cfg in small_positive _ b.attempts_low b.attempts_high
