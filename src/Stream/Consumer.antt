-- ===== src/Stream/Consumer.antt =====
-- contrib/stream/redis/consumer.go: the loop that polls, backs off and reports. Each round brings what
-- the context, the clock, the poll, the jitter and the sleep give it.
pub mod Outage
pub mod Backoff
use dilu_go_kit.Base.{
  ℕ, ◌+◌, ◌-◌, ◌*◌, ◌/◌, List, [], ◌∷◌, ◌++◌, Option, none, some, Bool, true, false, ◌&&◌, ◌||◌,
  not, if◌then◌else◌, ltb,
}
use dilu_go_kit.Base.Int.{ℤ, pos, negsuc, ◌-ℤ◌, leb_ℤ, ltb_ℤ}
use dilu_go_kit.Base.Text.{Text, beq, codes}
use dilu_go_kit.Errors.{Error, nil, is_nil}

-- The fields of consumerLoopOptions that are values; a duration is in nanoseconds.
pub record Options : Type 0 where
  pub initial_backoff : ℤ
  pub max_backoff : ℤ
  pub report_interval : ℤ

-- An error of the poll: the operation of a pollError, if it wraps one, and Error().
pub record Failure : Type 0 where
  pub operation : Option Text
  pub message : Text

pub record PollFailure : Type 0 where
  pub operation : Text
  pub error : Failure
  pub attempt : ℕ
  pub delay : ℤ
  pub suppressed : ℕ

pub record PollRecovery : Type 0 where
  pub attempts : ℕ
  pub suppressed : ℕ
  pub duration : ℤ

-- What the loop does: onFailure, onRecovery, and a sleep that it asks for.
pub data Output : Type 0 where
  failure_of : PollFailure → Output
  recovery_of : PollRecovery → Output
  sleep_of : ℤ → Output

-- The variables of the loop. A zero time is `none`; lastReport is read only once `reported` is set.
pub record Loop : Type 0 where
  pub backoff : ℤ
  pub attempts : ℕ
  pub total_suppressed : ℕ
  pub since_report : ℕ
  pub reported : Bool
  pub last_report : ℕ
  pub last_error : Text
  pub outage_started : Option ℕ

-- Before the first round, and after each that succeeds (which leaves lastReport alone).
unfoldable pub fresh : Options → ℕ → Loop
fresh o last = record {
  backoff = o.initial_backoff;
  attempts = 0;
  total_suppressed = 0;
  since_report = 0;
  reported = false;
  last_report = last;
  last_error = [];
  outage_started = none;
}

-- nextConsumerBackoff. Half of a duration is only taken of one above `current`, which is then compared.
abbrev pub half : ℤ → ℤ
half (pos n) = pos (n / 2)
half (negsuc n) = if ltb n 1 then pos 0 else negsuc ((n + 1) / 2 - 1)

abbrev pub twice : ℤ → ℤ
twice (pos n) = pos (n * 2)
twice (negsuc n) = negsuc (n * 2 + 1)

unfoldable pub next_backoff : (current maximum : ℤ) → ℤ
next_backoff current maximum =
    if leb_ℤ maximum current || ltb_ℤ (half maximum) current then maximum else twice current

-- The jittered delay between 0 and the greatest backoff.
unfoldable pub bounded_delay : ℤ → ℤ → ℤ
bounded_delay maximum d =
    let e = if ltb_ℤ d (pos 0) then pos 0 else d in if ltb_ℤ maximum e then maximum else e

abbrev pub operation_of : Failure → Text
operation_of f = elim f.operation [ none ↦ codes "poll" | some op ↦ op ]

abbrev pub error_key : Failure → Text
error_key f = operation_of f ++ (0 ∷ f.message)

abbrev pub time_or : ℕ → Option ℕ → ℕ
time_or now none = now
time_or now (some t) = t

-- Whether a failure is reported, or counted as suppressed.
abbrev pub is_due : Options → Loop → Failure → ℕ → Bool
is_due o s f now =
    not s.reported
    || not (beq (error_key f) s.last_error)
    || leb_ℤ o.report_interval (pos now -ℤ pos s.last_report)

-- A round whose poll failed, up to the sleep.
unfoldable pub fail : Options → Loop → Failure → (now : ℕ) → (jittered : ℤ) → Loop × List Output
unfolding bounded_delay next_backoff
fail o s f now jittered =
    let delay = bounded_delay o.max_backoff jittered in
    let counted = record s {
      attempts = s.attempts + 1;
      outage_started = some (time_or now s.outage_started);
      backoff = next_backoff s.backoff o.max_backoff;
    } in
    if is_due o s f now
    then (
      record counted {
        reported = true;
        last_report = now;
        last_error = error_key f;
        since_report = 0;
      },
      failure_of (record {
        operation = operation_of f;
        error = f;
        attempt = s.attempts + 1;
        delay = delay;
        suppressed = s.since_report;
      })
          ∷ sleep_of delay
          ∷ [],
    )
    else (
      record counted {
        since_report = s.since_report + 1;
        total_suppressed = s.total_suppressed + 1;
      },
      sleep_of delay ∷ [],
    )

-- A round whose poll succeeded.
unfoldable pub succeed : Options → Loop → (now : ℕ) → Loop × List Output
unfolding fresh
succeed o s now = (
  fresh o s.last_report,
  if ltb 0 s.attempts
      then recovery_of (record {
        attempts = s.attempts;
        suppressed = s.total_suppressed;
        duration = pos now -ℤ pos (time_or now s.outage_started);
      })
        ∷ []
      else [],
)

-- One round: the error of the context before the poll, the error of the poll, the context's error
-- after a failed poll, the clock, the jitter of this round, and the error of the sleep.
pub record Round : Type 0 where
  pub ctx_before : Error
  pub poll : Option Failure
  pub ctx_after : Error
  pub now : ℕ
  pub jitter : ℤ → ℤ
  pub slept : Error

-- How a round ends: the loop goes on, or returns an error.
pub data Turn : Type 0 where
  go_on : Loop → List Output → Turn
  stop : Error → List Output → Turn

after_sleep : Error → Loop × List Output → Turn
after_sleep slept (s, out) = if is_nil slept then go_on s out else stop slept out

after_poll : Options → Loop → Round → Option Failure → Turn
unfolding after_sleep fail succeed
after_poll o s r none = let (s', out) = succeed o s r.now in go_on s' out
after_poll o s r (some f) =
    if not (is_nil r.ctx_after)
    then stop r.ctx_after []
    else after_sleep r.slept (fail o s f r.now (r.jitter s.backoff))

unfoldable pub turn : Options → Loop → Round → Turn
unfolding after_poll
turn o s r = if not (is_nil r.ctx_before) then stop r.ctx_before [] else after_poll o s r r.poll

-- The loop over some rounds: the state after them where it has not returned, else its error; and all
-- that it has done.
pub record Run : Type 0 where
  pub last : Option Loop
  pub result : Error
  pub output : List Output

continue_with : (Loop → Run) → Turn → Run
continue_with rest (stop e out) = record { last = none; result = e; output = out }
continue_with rest (go_on s out) =
    let later = rest s in
    record { last = later.last; result = later.result; output = out ++ later.output }

unfoldable pub run_loop : Options → Loop → List Round → Run
unfolding turn continue_with
run_loop o s [] = record { last = some s; result = nil; output = [] }
run_loop o s (r ∷ rs) = continue_with (λ s'. run_loop o s' rs) (turn o s r)
