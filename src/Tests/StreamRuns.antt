-- ===== src/Tests/StreamRuns.antt =====
-- A consumer group that loses its group, reads it again, and hands a message to the dead letters.
use dilu_go_kit.Base.{
  ℕ, ◌+◌, ◌≡◌, refl, List, [], ◌∷◌, ◌++◌, map, none, true, false, ◌&&◌, not, All,
}
use dilu_go_kit.Base.Int.{pos, ◌-ℤ◌}
use dilu_go_kit.Base.Result.{Result, ok, err}
use dilu_go_kit.Base.Text.{Text, beq, codes, trim_space, is_space, len, contains, has_prefix}
use dilu_go_kit.Base.Dict.{lookup}
use dilu_go_kit.Stream.Consumer.{
  Failure, Options, fresh, run_loop, failure_of, sleep_of, recovery_of,
}
use dilu_go_kit.Stream.Consumer.Outage.{Miss, missed, hit, reports, recoveries, outage_recovery}
use dilu_go_kit.Stream.Group.{GroupConsumerConfig}
use dilu_go_kit.Stream.Group.Config.{GroupPacing, group_pacing}
use dilu_go_kit.Stream.Messages.{
  Values, Message, XMessage, XStream, other, read_group, validate_all, ensure_group, contains_text,
  validate_message_values,
}
use dilu_go_kit.Stream.Poll.{Poll, quiet, Replies, ensured, was_read, handled, poll, reader}
use dilu_go_kit.Stream.Poll.Contract.{Proper, all_calls, handler_inputs}
use dilu_go_kit.Stream.Poll.Readiness.{ensures, reads, is_lost, to_nat, available, poll_readiness}
use dilu_go_kit.Stream.DeadLetters.{Command, dead_letter_and_ack}
use dilu_go_kit.Stream.DeadLetters.Contents.{expected, Outcome, dead_letter_atomic}
use dilu_go_kit.Tests.Parameters.{float}

abbrev options : Options
options = record { initial_backoff = pos 10; max_backoff = pos 25; report_interval = pos 1000 }

abbrev refused : Failure
refused = record { operation = none; message = codes "refused" }

abbrev miss : ℕ → Miss
miss t = record { failure = refused; at = t; jitter = λ d. d }

-- Three failed polls and one that succeeds.
three_misses :
    (run_loop options
      (fresh options 0)
      (map missed (miss 5 ∷ miss 15 ∷ miss 35 ∷ []) ++ hit 60 ∷ [])).output
    ≡ failure_of (record {
      operation = codes "poll";
      error = refused;
      attempt = 1;
      delay = pos 10;
      suppressed = 0;
    })
      ∷ sleep_of (pos 10)
      ∷ sleep_of (pos 20)
      ∷ sleep_of (pos 25)
      ∷ recovery_of (record { attempts = 3; suppressed = 2; duration = pos 55 })
      ∷ []
unfolding run_loop beq
three_misses = refl

outage_recovery_example :
    let run =
      run_loop options
        (fresh options 0)
        (map missed (miss 5 ∷ miss 15 ∷ miss 35 ∷ []) ++ hit 60 ∷ []) in
    (k : ℕ) × (k + reports run.output ≡ 3)
    × (recoveries run.output
        ≡ record { attempts = 3; suppressed = k; duration = pos 60 -ℤ pos 5 } ∷ [])
outage_recovery_example = outage_recovery options 0 (miss 5) (miss 15 ∷ miss 35 ∷ []) 60

abbrev config : GroupConsumerConfig float
config = record {
  name = [];
  stream = codes "orders";
  group = codes "workers";
  consumer = codes "w1";
  start_id = [];
  count = pos 0;
  block = pos 0;
  claim_interval = pos 0;
  claim_min_idle = pos 0;
  skip_ensure_group = false;
  disable_claim = false;
  initial_backoff = pos 0;
  max_backoff = pos 0;
  report_interval = pos 0;
  jitter_fraction = 0;
  disable_jitter = true;
}

group_pacing_example : GroupPacing float config 0 (miss 5 ∷ miss 15 ∷ [])
group_pacing_example = group_pacing float config 0 (miss 5 ∷ miss 15 ∷ [])

-- An encoding, of which only the length matters.
abbrev marshal : Values Text → Result Text Text
marshal values = ok (codes "{}")

abbrev order : XMessage Text
order = record { id = codes "1-1"; values = (codes "sku", codes "a") ∷ [] }

abbrev streams : List (XStream Text)
streams = record { stream = codes "orders"; messages = order ∷ [] } ∷ []

-- The first poll is told that the group is gone, the second reads a message.
abbrev lost : Replies Text
lost = record {
  create = λ s g i. none;
  read = λ a. err (other (codes "NOGROUP"));
  claim = λ c. record { messages = []; next = codes "0-0"; error = none };
  panics = λ ms. false;
  selected = quiet;
}

abbrev found : Replies Text
found = record lost { read = λ a. ok streams }

abbrev ready : Poll
ready = record { group_ready = true; claim_cursor = [] }

lost_and_found :
    all_calls marshal config ready (lost ∷ found ∷ [])
    ≡ was_read
      ∷ ensured
      ∷ was_read
      ∷ handled (record { stream = codes "orders"; id = codes "1-1"; values = order.values } ∷ [])
      ∷ []
unfolding all_calls poll read_group validate_all ensure_group contains_text beq trim_space is_space
    len contains has_prefix validate_message_values
lost_and_found = refl

handler_inputs_example : All (Proper marshal) (all_calls marshal config ready (lost ∷ found ∷ []))
handler_inputs_example = handler_inputs marshal config ready (lost ∷ found ∷ [])

poll_readiness_example :
    let q = poll marshal config lost ready in
    (ensures q.calls ≡ 0)
    × (reads q.calls ≡ to_nat (available marshal config lost ready))
    × (q.state.group_ready ≡ (
        available marshal config lost ready
        && not (is_lost (read_group marshal lost.read (reader marshal config)))))
poll_readiness_example = poll_readiness marshal config lost ready

abbrev exec : List (Command Text) → Result Text Text
exec cs = ok (codes "9-1")

abbrev message : Message Text
message = record { stream = codes "orders"; id = codes "1-1"; values = order.values }

dead_letter_atomic_example :
    (values : Values Text) × ((k : Text)
      → lookup k values
        ≡ expected marshal (λ t. t) (λ v. v) exec message ((codes "why", codes "b") ∷ []) k)
    × Outcome marshal
        (λ t. t)
        (λ v. v)
        exec
        (codes "workers")
        (codes "dead")
        message
        values
        (dead_letter_and_ack marshal
          (λ t. t)
          (λ v. v)
          exec
          (codes "workers")
          (codes "dead")
          message
          ((codes "why", codes "b") ∷ []))
dead_letter_atomic_example =
    dead_letter_atomic marshal (λ t. t) (λ v. v) exec (codes "workers") (codes "dead") message
      ((codes "why", codes "b") ∷ []) (refl, tt)
