-- ===== src/Stream/Poll/Contract.antt =====
-- What a poll of a consumer group guarantees: the messages that its handler sees, when it ensures the
-- group, and where it claims from.
use dilu_go_kit.Base.{
  ◌≡◌, refl, subst, inl, inr, List, [], ◌∷◌, ◌++◌, Option, none, some, true, false, All, All-append,
  Bool-cases, if_cases,
}
use dilu_go_kit.Base.Float.{Float64}
use dilu_go_kit.Base.Result.{Result, ok, err, >>=-eq-ok, ok_inj}
use dilu_go_kit.Base.Text.{Text}
use dilu_go_kit.Stream.Group.{GroupConsumerConfig}
use dilu_go_kit.Stream.Messages.{
  Values, Message, XStream, ClientError, redis_nil, other, ReaderConfig, ClaimConfig, ClaimReply,
  ensure_group, read_group, read_reply, claim_stale, validate_message_values, validate_all,
  normalize, messages_of, claim_reply, validated, claim_checked, claim_args, read_args,
  claim_checks, XMessage, validate_stream_name, names_given,
}
use dilu_go_kit.Stream.Poll.{
  Poll, Select, done, ticked, quiet, Replies, Call, ensured, was_read, claimed, handled, Polled,
  poll, read_part, claim_part, invoke, after_claim, after_read, reader, claim_from, finished,
  claim_select, claim_now, after_ensure,
}

module _ {V : Type 0} (marshal : Values V → Result Text Text) where
  abbrev pub Valid : Message V → Type 0
  Valid m = validate_message_values marshal m.values ≡ ok tt

  -- The handler is only called with messages, all of them valid.
  abbrev pub Proper : Call V → Type 0
  Proper ensured = Unit
  Proper was_read = Unit
  Proper (claimed start) = Unit
  Proper (handled []) = (true ≡ false)
  Proper (handled (m ∷ ms)) = All Valid (m ∷ ms)

  pub validate_all-All : (ms : List (Message V)) → validate_all marshal ms ≡ ok tt → All Valid ms
  unfolding validate_all
  validate_all-All [] h = tt
  validate_all-All (m ∷ ms) h =
      let (u, first, rest) =
        >>=-eq-ok (λ _. validate_all marshal ms) (validate_message_values marshal m.values) h in
      (first, validate_all-All ms rest)

  -- The messages of a read that succeeds.
  read_reply-All :
      (r : Result ClientError (List (XStream V))) (ms : List (Message V))
      → read_reply marshal r ≡ ok ms
      → All Valid ms
  read_reply-All (err redis_nil) ms h = subst (All Valid) (ok_inj h) tt
  read_reply-All (err (other e)) ms h = cc
  read_reply-All (ok streams) ms h =
      let (u, valid, same) =
        >>=-eq-ok (λ _. ok (normalize marshal streams))
          (validate_all marshal (normalize marshal streams)) h in
      subst (All Valid) (ok_inj same) (validate_all-All _ valid)

  validated-All :
      (ms : List (Message V)) (next : Text) (v : Result Text (Unit {0}))
      → validate_all marshal ms ≡ v
      → All Valid (validated marshal ms next v).messages
  validated-All ms next (err e) h = tt
  validated-All ms next (ok u) h = validate_all-All ms h

  claim_reply-All :
      (stream : Text) (xs : List (XMessage V)) (next : Text) (e : Option ClientError)
      → All Valid (claim_reply marshal stream xs next e).messages
  claim_reply-All stream xs next none = validated-All (messages_of marshal stream xs) next _ refl
  claim_reply-All stream xs next (some redis_nil) = tt
  claim_reply-All stream xs next (some (other e)) = tt

  claim_checked-All :
      (claim : ClaimConfig → ClaimReply V) (cfg : ClaimConfig) (v : Result Text (Unit {0}))
      → All Valid (claim_checked marshal claim cfg v).messages
  claim_checked-All claim cfg (err e) = tt
  claim_checked-All claim cfg (ok u) =
      let r = claim (claim_args marshal cfg) in claim_reply-All cfg.stream r.messages r.next r.error

  read_group-All :
      (read : ReaderConfig → Result ClientError (List (XStream V))) (cfg : ReaderConfig)
      (ms : List (Message V))
      → read_group marshal read cfg ≡ ok ms
      → All Valid ms
  unfolding read_group
  read_group-All read cfg ms h =
      let (u, named, later) = >>=-eq-ok _ (validate_stream_name cfg.stream) h in
      let (w, given, reply) = >>=-eq-ok _ (names_given cfg.group cfg.consumer) later in
      read_reply-All (read (read_args marshal cfg)) ms reply

  module _ {f : Float64} (cfg : GroupConsumerConfig f) where
    invoke-Proper :
        (r : Replies V) (p : Poll) (ms : List (Message V)) (next : Polled V)
        → All Valid ms
        → All Proper next.calls
        → All Proper (invoke marshal cfg r p ms next).calls
    invoke-Proper r p [] next valid rest = rest
    invoke-Proper r p (m ∷ ms) next valid rest = elim (Bool-cases (r.panics (m ∷ ms))) [
      | inl h ↦ rw h (valid, tt)
      | inr h ↦ rw h (valid, rest)
    ]

    after_claim-Proper :
        (r : Replies V) (p : Poll) (ms : List (Message V)) (next : Text) (e : Option Text)
        → All Valid ms
        → All Proper (after_claim marshal cfg r p ms next e).calls
    after_claim-Proper r p ms next (some e) valid = tt
    after_claim-Proper r p ms next none valid =
        let p' = record p { claim_cursor = next } in
        invoke-Proper r p' ms (finished marshal cfg p') valid tt

    claim_select-Proper :
        (r : Replies V) (p : Poll) (s : Select) → All Proper (claim_select marshal cfg r p s).calls
    unfolding claim_select claim_now claim_stale
    claim_select-Proper r p (done e) = tt
    claim_select-Proper r p quiet = tt
    claim_select-Proper r p ticked =
        let from = claim_from marshal cfg p.claim_cursor in
        let c = claim_stale marshal r.claim from in
        (
          tt,
          after_claim-Proper r p c.messages c.next c.error
              (claim_checked-All r.claim from (claim_checks marshal from)),
        )

    claim_part-Proper : (r : Replies V) (p : Poll) → All Proper (claim_part marshal cfg r p).calls
    unfolding claim_part claim_select
    claim_part-Proper r p = elim (Bool-cases cfg.disable_claim) [
      | inl h ↦ rw h tt
      | inr h ↦ rw h (claim_select-Proper r p r.selected)
    ]

    after_read-Proper :
        (r : Replies V) (p : Poll) (reply : Result Text (List (Message V)))
        → read_group marshal r.read (reader marshal cfg) ≡ reply
        → All Proper (after_read marshal cfg r p reply).calls
    unfolding after_read
    after_read-Proper r p (err e) h = tt
    after_read-Proper r p (ok ms) h =
        invoke-Proper r p ms _ (read_group-All r.read (reader marshal cfg) ms h)
          (claim_part-Proper r p)

    read_part-Proper : (r : Replies V) (p : Poll) → All Proper (read_part marshal cfg r p).calls
    unfolding read_part after_read
    read_part-Proper r p = (tt, after_read-Proper r p _ refl)

    after_ensure-Proper :
        (r : Replies V) (p : Poll) (e : Option Text)
        → All Proper (after_ensure marshal cfg r p e).calls
    unfolding after_ensure
    after_ensure-Proper r p none = read_part-Proper r (record p { group_ready = true })
    after_ensure-Proper r p (some e) = tt

    poll-Proper : (r : Replies V) (p : Poll) → All Proper (poll marshal cfg r p).calls
    unfolding poll
    poll-Proper r p =
        let e = ensure_group r.create cfg.stream cfg.group cfg.start_id in
        if_cases (λ (q : Polled V). All Proper q.calls) p.group_ready (λ _. read_part-Proper r p)
          (λ _. (tt, after_ensure-Proper r p e))

    -- The calls of some polls in a row.
    unfoldable pub all_calls : Poll → List (Replies V) → List (Call V)
    unfolding poll
    all_calls p [] = []
    all_calls p (r ∷ rs) = let q = poll marshal cfg r p in q.calls ++ all_calls q.state rs

    -- In any number of polls, whatever Redis replies, the handler is only called with one message or
    -- more, and each of them has passed validateMessageValues: a batch with one message that is
    -- empty or too large is not handed over at all.
    pub handler_inputs : (p : Poll) (rs : List (Replies V)) → All Proper (all_calls p rs)
    unfolding all_calls
    handler_inputs p [] = tt
    handler_inputs p (r ∷ rs) =
        All-append Proper (poll marshal cfg r p).calls _ (poll-Proper r p)
          (handler_inputs (poll marshal cfg r p).state rs)
