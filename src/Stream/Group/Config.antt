-- ===== src/Stream/Group/Config.antt =====
-- The bounds that normalizeGroupConsumer enforces.
use dilu_go_kit.Base.{ℕ, ◌<◌, ◌≤◌, ◌≡◌, false, List, map, All, arith}
use dilu_go_kit.Base.Int.{ℤ, pos, ◌≤ℤ◌, pos_part}
use dilu_go_kit.Base.Float.{Float64}
use dilu_go_kit.Stream.Consumer.{fresh, run_loop}
use dilu_go_kit.Stream.Consumer.Outage.{Miss, missed, sleeps}
use dilu_go_kit.Stream.Consumer.Backoff.{delays, Within, backoff_doubles}
use dilu_go_kit.Stream.Group.{consumer_options, GroupConsumerConfig, normalize, positive}

positive_again :
    (n : ℕ) (v : ℤ) → 0 < n → positive (pos n) (positive (pos n) v) ≡ positive (pos n) v
positive_again n v h = ground arith

as_pos_bounds :
    (v w : ℤ) (hi : ℕ)
    → pos 1 ≤ℤ v
    → v ≤ℤ w
    → w ≤ℤ pos hi
    → (v ≡ pos (pos_part v))
      × (w ≡ pos (pos_part w))
      × (0 < pos_part v)
      × (pos_part v ≤ pos_part w)
      × (pos_part w ≤ hi)
as_pos_bounds v w hi low le high = ground arith

-- The least is 1 ns for what has no smaller one.
module _ (f : Float64) where
  pub record IsBounded (cfg : GroupConsumerConfig f) : Type 0 where
    pub count_low : pos 1 ≤ℤ cfg.count
    pub block_low : pos 1 ≤ℤ cfg.block
    pub interval_low : pos 1 ≤ℤ cfg.claim_interval
    pub interval_high : cfg.claim_interval ≤ℤ pos 86_400_000_000_000
    pub idle_low : pos 1 ≤ℤ cfg.claim_min_idle
    pub idle_high : cfg.claim_min_idle ≤ℤ pos 86_400_000_000_000
    pub initial_low : pos 1 ≤ℤ cfg.initial_backoff
    pub initial_high : cfg.initial_backoff ≤ℤ cfg.max_backoff
    pub max_high : cfg.max_backoff ≤ℤ pos 600_000_000_000
    pub report_low : pos 1 ≤ℤ cfg.report_interval
    pub jitter_high : f.ltb f.one cfg.jitter_fraction ≡ false

  pub normalize-IsBounded : (cfg : GroupConsumerConfig f) → IsBounded (normalize f cfg)
  unfolding normalize
  normalize-IsBounded cfg = ground (arith, f.not_one_lt_one, f.not_one_lt_fifth, f.not_one_lt_zero)

  -- The delays of a consumer group's loop, over an outage that begins with the state after the
  -- start or after a success.
  abbrev pub GroupPacing : GroupConsumerConfig f → ℕ → List Miss → Type 0
  GroupPacing cfg last ms =
      let o = consumer_options f (normalize f cfg) in
      let out = (run_loop o (fresh o last) (map missed ms)).output in
      let i = pos_part o.initial_backoff in
      let x = pos_part o.max_backoff in
      (0 < i)
      × (i ≤ x)
      × (x ≤ 600_000_000_000)
      × (sleeps out ≡ delays i x 0 ms)
      × All (Within i x) (sleeps out)

  -- The loop of a consumer group, whatever its configuration says, backs off by the capped
  -- exponential law: with `i` and `x` the first and the greatest backoff that normalizeGroupConsumer
  -- leaves, which are 0 < i ≤ x ≤ 10 minutes, the backoff of a failed poll after k others is
  -- i * 2 ^ k or `x`, the less of both, and the loop sleeps for this backoff as the jitter of that
  -- round changes it, but never for less than 0 or more than `x`.
  pub group_pacing :
      (cfg : GroupConsumerConfig f) (last : ℕ) (ms : List Miss) → GroupPacing cfg last ms
  group_pacing cfg last ms =
      let o = consumer_options f (normalize f cfg) in
      let b = normalize-IsBounded cfg in
      let (low, high, first, le, top) =
        as_pos_bounds o.initial_backoff o.max_backoff _ b.initial_low b.initial_high b.max_high in
      let (law, bounds) = backoff_doubles _ _ o last ms low high le in (first, le, top, law, bounds)
