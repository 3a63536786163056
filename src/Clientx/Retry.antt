-- ===== src/Clientx/Retry.antt =====
-- clientx/client.go: the retry loop Do and its configuration. float64 is a parameter.
pub mod Config
pub mod Attempts
use dilu_go_kit.Base.{
  ℕ, zero, suc, ◌+◌, Bool, true, false, ◌||◌, not, Option, none, some, List, [], ◌∷◌, ◌==◌,
  if◌then◌else◌,
}
use dilu_go_kit.Base.Int.{ℤ, pos, negsuc, leb_ℤ, ltb_ℤ, pos_part, clamped}
use dilu_go_kit.Base.Float.{Float64}
use dilu_go_kit.Errors.{Error, nil, sentinel, nil_operation, is_nil}

-- RetryConfig. Durations are in nanoseconds; Sleep is part of the world below.
pub record RetryConfig (f : Float64) : Type 0 where
  pub max_attempts : ℤ
  pub budget : ℤ
  pub initial_backoff : ℤ
  pub max_backoff : ℤ
  pub multiplier : f.F
  pub retryable : Option (Error → Bool)
  pub jitter_fraction : f.F
  pub disable_jitter : Bool

abbrev pub or_default : (Error → Bool) → Option (Error → Bool) → Error → Bool
or_default default none = default
or_default default (some r) = r

-- What the operation meets: the error of its context at the start of each attempt (the context of
-- the budget, where there is one), what the operation returns at each attempt, what Sleep returns
-- after it, and the random number in [0, 1) of its jitter. Attempts count from 1.
pub record World (f : Float64) : Type 0 where
  pub ctx_err : ℕ → Error
  pub fn : ℕ → Error
  pub slept : ℕ → Error
  pub random : ℕ → f.F

-- The error that Do returns, how often it called the operation, and the sleeps that it asked for.
pub record Outcome : Type 0 where
  pub result : Error
  pub called : ℕ
  pub sleeps : List ℤ

module _ (f : Float64) where
  open f use {F, leb, ltb, add, sub, mul, of_int, to_int}

  unfoldable pub clamp_multiplier : F → F
  clamp_multiplier m = let n = if leb m f.zero then f.two else m in if ltb f.ten n then f.ten else n

  unfoldable pub clamp_jitter : Bool → F → F
  clamp_jitter disabled j =
      let k = if disabled then f.zero else (if leb j f.zero then f.fifth else j) in
      if ltb f.one k then f.one else k

  -- normalizeRetryConfig; `default` is IsRetryable.
  unfoldable pub normalize : (Error → Bool) → RetryConfig f → RetryConfig f
  unfolding clamp_multiplier clamp_jitter
  normalize default cfg =
      let initial = clamped (pos 100_000_000) (pos 60_000_000_000) cfg.initial_backoff in
      let cap = clamped (pos 1_000_000_000) (pos 300_000_000_000) cfg.max_backoff in
      record {
        max_attempts = clamped (pos 3) (pos 5) cfg.max_attempts;
        budget = if ltb_ℤ cfg.budget (pos 0) then pos 0 else cfg.budget;
        initial_backoff = initial;
        max_backoff = if ltb_ℤ cap initial then initial else cap;
        multiplier = clamp_multiplier cfg.multiplier;
        retryable = some (or_default default cfg.retryable);
        jitter_fraction = clamp_jitter cfg.disable_jitter cfg.jitter_fraction;
        disable_jitter = cfg.disable_jitter;
      }

  -- jitterBackoff, with the random number as an argument.
  unfoldable pub jitter_backoff : F → ℤ → F → ℤ
  jitter_backoff random d fraction =
      let delta = mul (sub (mul random f.two) f.one) fraction in
      let result = to_int (mul (of_int d) (add f.one delta)) in
      if leb_ℤ d (pos 0) || leb fraction f.zero
      then d
      else if ltb_ℤ result (pos 0)
      then pos 0
      else result

  -- nextBackoff
  unfoldable pub next_backoff : ℤ → ℤ → F → ℤ
  next_backoff current max multiplier =
      let next = to_int (mul (of_int current) multiplier) in if ltb_ℤ max next then max else next

  -- One round of the loop of Do at `attempt`, with `left` attempts after it, the sleep that it would
  -- ask for, and the outcome of the rounds after it.
  unfoldable pub round : (Error → Bool) → World f → (left attempt : ℕ) → ℤ → Outcome → Outcome
  round retry w left attempt pause rest =
      let err = w.fn attempt in
      if not (is_nil (w.ctx_err attempt))
      then record { result = w.ctx_err attempt; called = 0; sleeps = [] }
      else if is_nil err
      then record { result = nil; called = 1; sleeps = [] }
      else if left == 0 || not (retry err)
      then record { result = err; called = 1; sleeps = [] }
      else if not (is_nil (w.slept attempt))
      then record { result = w.slept attempt; called = 1; sleeps = pause ∷ [] }
      else record { result = rest.result; called = suc rest.called; sleeps = pause ∷ rest.sleeps }

  -- The loop of Do with that many attempts to go; `retry` is cfg.Retryable, and `last` what is
  -- returned where the loop runs out.
  unfoldable pub loop :
      RetryConfig f → (Error → Bool) → World f → (left attempt : ℕ) → ℤ → Error → Outcome
  loop cfg retry w zero attempt backoff last = record { result = last; called = 0; sleeps = [] }
  loop cfg retry w (suc left) attempt backoff last =
      round retry w left attempt (jitter_backoff (w.random attempt) backoff cfg.jitter_fraction) (
        loop cfg retry w left (attempt + 1) (next_backoff backoff cfg.max_backoff cfg.multiplier)
          (w.fn attempt))

  -- Do with an operation that is not nil.
  unfoldable pub run_retry : (Error → Bool) → RetryConfig f → World f → Outcome
  unfolding normalize
  run_retry default cfg w =
      let cfg' = normalize default cfg in
      let retry = or_default default cfg'.retryable in
      loop cfg' retry w (pos_part cfg'.max_attempts) 1 cfg'.initial_backoff nil
