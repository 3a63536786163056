-- ===== src/Clientx/Breaker.antt =====
-- clientx/breaker.go. The mutex makes each method one step; time is an argument, in nanoseconds.
-- `published` is what metrics.ObserveCircuitBreaker was last told.
pub mod Outcomes
pub mod Machine
pub mod Invariant
pub mod Calls
pub mod Stuck
use dilu_go_kit.Base.{
  ℕ, ◌+◌, ◌%◌, ◌^◌, Bool, true, false, ◌&&◌, ◌||◌, Option, none, some, leb, ltb, if◌then◌else◌, not,
  ◌==◌,
}
use dilu_go_kit.Base.Int.{ℤ, positive_or}
use dilu_go_kit.Errors.{
  Error, nil, sentinel, canceled, deadline_exceeded, circuit_open, nil_operation, is, is_nil,
}

pub data State : Type 0 where
  closed opened half_open : State

pub record Breaker : Type 0 where
  pub state : State
  pub failures : ℕ
  pub threshold : ℕ
  pub open_until : ℕ
  pub cooldown : ℕ
  pub should_count : Error → Bool
  pub half_open_probe : Bool
  pub generation : ℕ  -- uint64
  pub published : State

-- BreakerConfig; the name and the clock are left out, and a nil ShouldCount is `none`.
pub record Config : Type 0 where
  pub failure_threshold : ℤ
  pub cooldown : ℤ  -- time.Duration
  pub should_count : Option (Error → Bool)

unfoldable pub default_should_count : Error → Bool
default_should_count err =
    if is_nil err || is err canceled || is err deadline_exceeded then false else true

unfoldable pub new_breaker : Config → Breaker
unfolding default_should_count
new_breaker cfg = record {
  state = closed;
  failures = 0;
  threshold = positive_or 5 cfg.failure_threshold;
  open_until = 0;
  cooldown = positive_or 30_000_000_000 cfg.cooldown;
  should_count = elim cfg.should_count [ none ↦ default_should_count | some f ↦ f ];
  half_open_probe = false;
  generation = 0;
  published = closed;
}

abbrev pub u64 : ℕ → ℕ
u64 n = n % 2 ^ 64

pub record Permit : Type 0 where
  pub generation : ℕ
  pub half_open : Bool

abbrev pub is_opened : State → Bool
is_opened opened = true
is_opened _ = false

abbrev pub is_half_open : State → Bool
is_half_open half_open = true
is_half_open _ = false

abbrev pub is_closed : State → Bool
is_closed closed = true
is_closed _ = false

-- currentStateLocked: `!b.openUntil.After(now)` is `open_until ≤ now`.
unfoldable pub current : Breaker → ℕ → Breaker
current b now =
    if is_opened b.state && leb b.open_until now then record b { state = half_open } else b

-- before: `none` is ErrCircuitOpen.
unfoldable pub before : Breaker → ℕ → Breaker × Option Permit
unfolding current
before b now =
    let b' = current b now in
    if is_opened b'.state
    then (b', none)
    else if is_half_open b'.state
    then (if b'.half_open_probe then (b', none) else (
      record b' { half_open_probe = true },
      some (record { generation = b'.generation; half_open = true }),
    ))
    else (b', some (record { generation = b'.generation; half_open = false }))

-- The breaker opens: after a failed probe, and at the threshold.
trip : Breaker → ℕ → Breaker
trip b now = record b {
  state = opened;
  open_until = now + b.cooldown;
  generation = u64 (b.generation + 1);
  published = opened;
}

settle_probe : Breaker → Error → ℕ → Breaker
unfolding trip
settle_probe b err now =
    let b' = record b { half_open_probe = false } in
    if is_nil err
    then record b' {
      failures = 0;
      state = closed;
      generation = u64 (b.generation + 1);
      published = closed;
    }
    else trip b' now

settle_closed : Breaker → Error → ℕ → Breaker
unfolding trip
settle_closed b err now =
    if is_nil err
    then record b { failures = 0; state = closed }
    else if not (b.should_count err)
    then b
    else (let b' = record b { failures = b.failures + 1 } in
        if leb b'.threshold b'.failures then trip b' now else b')

unfoldable pub after : Breaker → Permit → Error → ℕ → Breaker
unfolding settle_probe settle_closed
after b permit err now =
    if not (permit.generation == b.generation)
    then b
    else if permit.half_open && is_half_open b.state
    then settle_probe b err now
    else if not (is_closed b.state)
    then b
    else settle_closed b err now

-- What Do reports: its error, and whether the operation ran.
pub record Outcome : Type 0 where
  pub result : Error
  pub called : Bool

finish_call : Error → ℕ → Breaker × Option Permit → Breaker × Outcome
unfolding after
finish_call err done (b, none) = (b, record { result = sentinel circuit_open; called = false })
finish_call err done (b, some permit) =
    (after b permit err done, record { result = err; called = true })

-- A call of Do with nothing between its two halves. `fn` is the operation's result, `none` a nil
-- operation; it is called at `start` and returns at `done`.
unfoldable pub do_call : Breaker → Error → Option Error → ℕ → ℕ → Breaker × Outcome
unfolding before finish_call
do_call b ctx_err none start done = (b, record { result = sentinel nil_operation; called = false })
do_call b ctx_err (some err) start done =
    if not (is_nil ctx_err)
    then (b, record { result = ctx_err; called = false })
    else finish_call err done (before b start)
