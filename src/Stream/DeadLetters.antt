-- ===== src/Stream/DeadLetters.antt =====
-- contrib/stream/redis/stream.go: Publish, Ack and the dead letters. The values of a message are
-- strings or anything else that json.Marshal encodes.
pub mod Contents
use dilu_go_kit.Base.{
  ◌≡◌, refl, inl, inr, List, [], ◌∷◌, Option, none, some, Bool, true, false, ◌||◌, if◌then◌else◌,
  Bool-cases, if_cases, arith, ◌⊎◌, ◌∙◌, ap,
}
use dilu_go_kit.Base.Int.{ℤ, pos}
use dilu_go_kit.Base.Result.{Result, ok, err, ◌>>=◌}
use dilu_go_kit.Base.Text.{Text, beq, beq_iff, codes}
use dilu_go_kit.Base.Text.Sorting.{IsDistinct}
use dilu_go_kit.Base.Dict.{lookup, insert, keys, lookup-insert, lookup_absent}
use dilu_go_kit.Stream.Messages.{Values, Message, validate_stream_name, validate_message_values}

-- The commands that reach Redis.
pub data Command (V : Type 0) : Type 0 where
  xadd : (stream : Text) (values : Values V) (max_len : ℤ) → Command V
  xack : (stream group : Text) (ids : List Text) → Command V

-- What was sent, in one transaction, and the result.
pub record Sent (V : Type 0) : Type 0 where
  pub commands : List (Command V)
  pub result : Result Text Text

module _ {V : Type 0} where
  abbrev pub refused : Text → Sent V
  refused e = record { commands = []; result = err e }

  -- A check before a command.
  abbrev pub when : Result Text (Unit {0}) → Sent V → Sent V
  when (err e) s = refused e
  when (ok u) s = s

  -- `for k, v := range extra { values[k] = v }`
  unfoldable pub merge : Values V → Values V → Values V
  merge values [] = values
  merge values ((k, v) ∷ extra) = merge (insert k v values) extra

-- `exec` runs a transaction and gives the identifier of its XADD; `inject` is InjectMessageContext.
module _ {V : Type 0} (marshal : Values V → Result Text Text) (text : Text → V)
    (inject : Values V → Values V) (exec : List (Command V) → Result Text Text) where
  -- PublishMaxLen
  unfoldable pub publish_max_len : Text → Values V → ℤ → Sent V
  publish_max_len stream values max_len =
      let vs = inject values in
      let c = xadd stream vs max_len ∷ [] in
      when (validate_stream_name stream)
        (when (validate_message_values marshal vs) (record { commands = c; result = exec c }))

  -- Publish
  abbrev pub publish : Text → Values V → Sent V
  unfolding publish_max_len
  publish stream values = publish_max_len stream values (pos 0)

  -- Ack; the identifier is not used.
  unfoldable pub ack : Text → Text → List Text → Sent V
  ack stream group [] =
      when (validate_stream_name stream) (record { commands = []; result = ok [] })
  ack stream group (id ∷ ids) =
      let c : List (Command V) = xack stream group (id ∷ ids) ∷ [] in
      when (validate_stream_name stream) (record { commands = c; result = exec c })

  abbrev pub dead_values : Message V → Values V → Values V
  unfolding merge
  dead_values msg extra =
      insert (codes "source_id") (text msg.id)
        (insert (codes "source_stream") (text msg.stream) (merge msg.values extra))

  abbrev pub ack_ready : Text → Message V → Result Text (Unit {0})
  ack_ready group msg =
      if beq group [] || beq msg.stream [] || beq msg.id []
      then err (codes "stream: group, source stream, and source ID are required")
      else ok tt

  -- addDeadLetter with ack set: DeadLetterAndAck
  unfoldable pub dead_letter_and_ack : Text → Text → Message V → Values V → Sent V
  unfolding dead_values
  dead_letter_and_ack group dead_stream msg extra =
      let values = dead_values msg extra in
      let c = xadd dead_stream values (pos 0) ∷ xack msg.stream group (msg.id ∷ []) ∷ [] in
      when (validate_message_values marshal values)
        (when (ack_ready group msg) (record { commands = c; result = exec c }))

  -- addDeadLetter without ack: ToDeadLetter
  unfoldable pub to_dead_letter : Text → Message V → Values V → Sent V
  unfolding dead_values publish
  to_dead_letter dead_stream msg extra =
      let values = dead_values msg extra in
      when (validate_message_values marshal values) (publish dead_stream values)
