-- ===== src/Stream/Group.antt =====
-- contrib/stream/redis/consumer.go: the configuration of a consumer group. The callbacks, and the
-- options that only tests set, are left out; float64 is a parameter.
pub mod Config
use dilu_go_kit.Base.{ℕ, List, [], ◌∷◌, ◌++◌, Bool, true, false, ◌||◌, if◌then◌else◌}
use dilu_go_kit.Base.Int.{ℤ, pos, leb_ℤ, ltb_ℤ, clamped}
use dilu_go_kit.Base.Float.{Float64}
use dilu_go_kit.Base.Result.{Result, ok, err}
use dilu_go_kit.Base.Text.{Text, beq, codes, trim_space}
use dilu_go_kit.Stream.Consumer.{Options}

-- GroupConsumerConfig. Durations are in nanoseconds.
pub record GroupConsumerConfig (f : Float64) : Type 0 where
  pub name : Text
  pub stream : Text
  pub group : Text
  pub consumer : Text
  pub start_id : Text
  pub count : ℤ
  pub block : ℤ
  pub claim_interval : ℤ
  pub claim_min_idle : ℤ
  pub skip_ensure_group : Bool
  pub disable_claim : Bool
  pub initial_backoff : ℤ
  pub max_backoff : ℤ
  pub report_interval : ℤ
  pub jitter_fraction : f.F
  pub disable_jitter : Bool

-- `if s == "" { s = d }`
abbrev pub text_or : Text → Text → Text
text_or d s = if beq s [] then d else s

-- `if v <= 0 { v = d }`
abbrev pub positive : ℤ → ℤ → ℤ
positive d v = if leb_ℤ v (pos 0) then d else v

-- 24 hours
abbrev day : ℤ
day = pos 86_400_000_000_000

module _ (f : Float64) where
  open f use {F, leb, ltb, add, sub, mul, of_int, to_int}

  abbrev pub effective_jitter : Bool → F → F
  effective_jitter disabled j =
      let k = if disabled then f.zero else (if leb j f.zero then f.fifth else j) in
      if ltb f.one k then f.one else k

  -- normalizeGroupConsumer
  unfoldable pub normalize : GroupConsumerConfig f → GroupConsumerConfig f
  normalize cfg =
      let initial = clamped (pos 250_000_000) (pos 60_000_000_000) cfg.initial_backoff in
      let cap = clamped (pos 30_000_000_000) (pos 600_000_000_000) cfg.max_backoff in
      record cfg {
        name = text_or (cfg.group ++ (b':' ∷ cfg.stream)) cfg.name;
        start_id = text_or (codes "0") cfg.start_id;
        count = positive (pos 10) cfg.count;
        block = positive (pos 5_000_000_000) cfg.block;
        claim_interval = clamped (pos 30_000_000_000) day cfg.claim_interval;
        claim_min_idle = clamped (pos 30_000_000_000) day cfg.claim_min_idle;
        initial_backoff = initial;
        max_backoff = if ltb_ℤ cap initial then initial else cap;
        report_interval = positive (pos 60_000_000_000) cfg.report_interval;
        jitter_fraction = effective_jitter cfg.disable_jitter cfg.jitter_fraction;
      }

  -- consumerOptions, as far as it copies values
  abbrev pub consumer_options : GroupConsumerConfig f → Options
  consumer_options cfg = record {
    initial_backoff = cfg.initial_backoff;
    max_backoff = cfg.max_backoff;
    report_interval = cfg.report_interval;
  }

  -- validateGroupConsumer with a client and a handler that are not nil.
  unfoldable pub validate : GroupConsumerConfig f → Result Text (Unit {0})
  validate cfg =
      if beq (trim_space cfg.stream) []
        || beq (trim_space cfg.group) []
        || beq (trim_space cfg.consumer) []
      then err (codes "stream: consumer stream, group, and consumer are required")
      else ok tt

  -- jitterConsumerBackoff, with the random number as an argument.
  unfoldable pub jitter_backoff : F → ℤ → F → ℤ
  jitter_backoff random delay fraction =
      let delta = mul (sub (mul random f.two) f.one) fraction in
      if leb_ℤ delay (pos 0) || leb fraction f.zero
      then delay
      else to_int (mul (of_int delay) (add f.one delta))
