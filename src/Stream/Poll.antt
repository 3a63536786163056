-- ===== src/Stream/Poll.antt =====
-- contrib/stream/redis/consumer.go: one poll of RunGroupConsumer, and the rounds that its polls make
-- for the loop. Each poll brings the replies of the client, the handler and the select.
pub mod Contract
pub mod Readiness
use dilu_go_kit.Base.{
  ℕ, List, [], ◌∷◌, ◌++◌, Option, none, some, Bool, true, false, ◌&&◌, ◌||◌, not, if◌then◌else◌,
}
use dilu_go_kit.Base.Int.{ℤ}
use dilu_go_kit.Base.Float.{Float64}
use dilu_go_kit.Base.Result.{Result, ok, err}
use dilu_go_kit.Base.Text.{Text, codes}
use dilu_go_kit.Errors.{Error, nil}
use dilu_go_kit.Stream.Consumer.{Failure, Round, Run, run_loop, fresh}
use dilu_go_kit.Stream.Group.{GroupConsumerConfig, normalize, validate, consumer_options}
use dilu_go_kit.Stream.Messages.{
  Values, Message, XStream, ClientError, ReaderConfig, ClaimConfig, ClaimReply, Claimed,
  contains_text, ensure_group, read_group, claim_stale,
}

-- groupReady and claimCursor
pub record Poll : Type 0 where
  pub group_ready : Bool
  pub claim_cursor : Text

-- What the select finds: the context is done, with its error, the ticker has fired, or neither.
pub data Select : Type 0 where
  done : Text → Select
  ticked quiet : Select

pub record Replies (V : Type 0) : Type 0 where
  pub create : (stream group start : Text) → Option ClientError
  pub read : ReaderConfig → Result ClientError (List (XStream V))
  pub claim : ClaimConfig → ClaimReply V
  pub panics : List (Message V) → Bool
  pub selected : Select

-- The calls of a poll: EnsureGroup, ReadGroup, ClaimStale with its start, and the handler.
pub data Call (V : Type 0) : Type 0 where
  ensured : Call V
  was_read : Call V
  claimed : Text → Call V
  handled : List (Message V) → Call V

-- The variables after a poll, its calls in their order, and the error that it returns.
pub record Polled (V : Type 0) : Type 0 where
  pub state : Poll
  pub calls : List (Call V)
  pub failure : Option Failure

-- pollError
abbrev pub poll_error : Text → Text → Failure
poll_error operation e = record {
  operation = some operation;
  message = operation ++ (codes ": " ++ e);
}

module _ {f : Float64} {V : Type 0} (marshal : Values V → Result Text Text)
    (cfg : GroupConsumerConfig f) where
  abbrev pub reader : ReaderConfig
  reader = record {
    stream = cfg.stream;
    group = cfg.group;
    consumer = cfg.consumer;
    count = cfg.count;
    block = cfg.block;
  }

  abbrev pub claim_from : Text → ClaimConfig
  claim_from start = record {
    stream = cfg.stream;
    group = cfg.group;
    consumer = cfg.consumer;
    min_idle = cfg.claim_min_idle;
    start = start;
    count = cfg.count;
  }

  -- invokeHandler where there are messages, and what follows it where it does not panic.
  abbrev pub invoke : Replies V → Poll → List (Message V) → Polled V → Polled V
  invoke r p [] next = next
  invoke r p (m ∷ ms) next =
      if r.panics (m ∷ ms)
      then record {
        state = p;
        calls = handled (m ∷ ms) ∷ [];
        failure = some (poll_error (codes "handle") (codes "stream: consumer handler panic"));
      }
      else record next { calls = handled (m ∷ ms) ∷ next.calls }

  abbrev pub finished : Poll → Polled V
  finished p = record { state = p; calls = []; failure = none }

  abbrev pub after_claim : Replies V → Poll → List (Message V) → Text → Option Text → Polled V
  after_claim r p stale next (some e) = record {
    state = p;
    calls = [];
    failure = some (poll_error (codes "claim_stale") e);
  }
  after_claim r p stale next none =
      let p' = record p { claim_cursor = next } in invoke r p' stale (finished p')

  abbrev pub with_call : Call V → Polled V → Polled V
  with_call c q = record q { calls = c ∷ q.calls }

  unfoldable pub claim_now : Replies V → Poll → Polled V
  unfolding claim_stale
  claim_now r p =
      let c = claim_stale marshal r.claim (claim_from p.claim_cursor) in
      with_call (claimed p.claim_cursor) (after_claim r p c.messages c.next c.error)

  abbrev pub claim_select : Replies V → Poll → Select → Polled V
  unfolding claim_now
  claim_select r p (done e) = record {
    state = p;
    calls = [];
    failure = some (record { operation = none; message = e });
  }
  claim_select r p ticked = claim_now r p
  claim_select r p quiet = finished p

  -- The part of a poll behind the messages that were read.
  unfoldable pub claim_part : Replies V → Poll → Polled V
  unfolding claim_select
  claim_part r p = if cfg.disable_claim then finished p else claim_select r p r.selected

  -- The part of a poll behind EnsureGroup.
  abbrev pub after_read : Replies V → Poll → Result Text (List (Message V)) → Polled V
  unfolding contains_text claim_part
  after_read r p (err e) = record {
    state = if contains_text (codes "NOGROUP") e then record p { group_ready = false } else p;
    calls = [];
    failure = some (poll_error (codes "read_group") e);
  }
  after_read r p (ok ms) = invoke r p ms (claim_part r p)

  unfoldable pub read_part : Replies V → Poll → Polled V
  unfolding after_read read_group
  read_part r p = with_call was_read (after_read r p (read_group marshal r.read reader))

  abbrev pub after_ensure : Replies V → Poll → Option Text → Polled V
  unfolding read_part
  after_ensure r p (some e) = record {
    state = p;
    calls = [];
    failure = some (poll_error (codes "ensure_group") e);
  }
  after_ensure r p none = read_part r (record p { group_ready = true })

  -- The function that RunGroupConsumer hands to the loop.
  unfoldable pub poll : Replies V → Poll → Polled V
  unfolding after_ensure ensure_group
  poll r p =
      if p.group_ready
      then read_part r p
      else with_call ensured
          (after_ensure r p (ensure_group r.create cfg.stream cfg.group cfg.start_id))

-- A round of the loop before its poll has been run.
pub record Tick (V : Type 0) : Type 0 where
  pub replies : Replies V
  pub ctx_before : Error
  pub ctx_after : Error
  pub now : ℕ
  pub jitter : ℤ → ℤ
  pub slept : Error

module _ {f : Float64} {V : Type 0} (marshal : Values V → Result Text Text) where
  abbrev pub rounds : GroupConsumerConfig f → Poll → List (Tick V) → List Round
  unfolding poll
  rounds cfg p [] = []
  rounds cfg p (t ∷ ts) =
      let q = poll marshal cfg t.replies p in
      record {
        ctx_before = t.ctx_before;
        poll = q.failure;
        ctx_after = t.ctx_after;
        now = t.now;
        jitter = t.jitter;
        slept = t.slept;
      }
      ∷ rounds cfg q.state ts

  -- RunGroupConsumer over some rounds. Rounds after the loop has returned are not looked at.
  unfoldable pub run_group_consumer : GroupConsumerConfig f → List (Tick V) → Result Text Run
  unfolding rounds validate normalize run_loop fresh
  run_group_consumer cfg ts = elim (validate f cfg) [
    | err e ↦ err e
    | ok u ↦
        let c = normalize f cfg in
        let o = consumer_options f c in
        let p : Poll = record { group_ready = c.skip_ensure_group; claim_cursor = [] } in
        ok (run_loop o (fresh o 0) (rounds c p ts))
  ]
