-- ===== src/Stream/DeadLetters/Contents.antt =====
-- What a dead letter carries, and what is sent with it.
use dilu_go_kit.Base.{
  ◌≡◌, ◌≢◌, refl, ap, inl, inr, List, [], ◌∷◌, Option, some, if◌then◌else◌, arith, ◌⊎◌,
}
use dilu_go_kit.Base.Int.{pos}
use dilu_go_kit.Base.Result.{Result, ok, err}
use dilu_go_kit.Base.Text.{Text, beq, beq_iff, codes}
use dilu_go_kit.Base.Text.Sorting.{IsDistinct}
use dilu_go_kit.Base.Dict.{or_else, lookup, insert, keys, lookup-insert, lookup_absent}
use dilu_go_kit.Stream.Messages.{Values, Message, validate_message_values}
use dilu_go_kit.Stream.DeadLetters.{
  Command, xadd, xack, Sent, refused, when, merge, dead_values, ack_ready, dead_letter_and_ack,
}

module _ {V : Type 0} where
  lookup-merge :
      (j : Text) (values extra : Values V)
      → IsDistinct (keys extra)
      → lookup j (merge values extra) ≡ or_else (lookup j extra) (lookup j values)
  unfolding merge lookup
  lookup-merge j values [] d = refl
  lookup-merge j values ((k, v) ∷ extra) d = ground (
    arith,
    lookup-merge j (insert k v values) extra d.1,
    lookup-insert k j v values,
    beq_iff k j,
    lookup_absent j extra,
  )

when-cases {κ} :
    {V : Type 0} (P : Sent V → Type κ) (check : Result Text (Unit {0})) {s : Sent V}
    → ((e : Text) → check ≡ err e → P (refused e))
    → (check ≡ ok tt → P s)
    → P (when check s)
when-cases P (err e) fails holds = fails e refl
when-cases P (ok u) fails holds = holds refl

module _ {V : Type 0} (marshal : Values V → Result Text Text) (text : Text → V)
    (inject : Values V → Values V) (exec : List (Command V) → Result Text Text) where
  abbrev pub expected : Message V → Values V → Text → Option V
  expected msg extra k =
      if beq (codes "source_id") k
      then some (text msg.id)
      else if beq (codes "source_stream") k
      then some (text msg.stream)
      else or_else (lookup k extra) (lookup k msg.values)

  contents :
      (msg : Message V) (extra : Values V) (k : Text)
      → IsDistinct (keys extra)
      → lookup k (dead_values marshal text inject exec msg extra) ≡ expected msg extra k
  unfolding dead_values
  contents msg extra k d = ground (
    arith,
    lookup-merge k msg.values extra d,
    lookup-insert (codes "source_stream") k (text msg.stream) (merge msg.values extra),
    lookup-insert (codes "source_id") k (text msg.id)
        (insert (codes "source_stream") (text msg.stream) (merge msg.values extra)),
  )

  -- How a dead letter with these values ends: refused for the values, or for what the
  -- acknowledgement lacks, or else, with valid values and nothing missing, sent.
  abbrev pub Outcome : Text → Text → Message V → Values V → Sent V → Type 0
  Outcome group dead_stream msg values s =
      ((e : Text) × (validate_message_values marshal values ≡ err e) × (s ≡ refused e))
      ⊎ ((validate_message_values marshal values ≡ ok tt)
          × ((group ≡ []) ⊎ (msg.stream ≡ []) ⊎ (msg.id ≡ []))
          × (s ≡ refused (codes "stream: group, source stream, and source ID are required")))
      ⊎ ((validate_message_values marshal values ≡ ok tt)
          × (group ≢ [])
          × (msg.stream ≢ [])
          × (msg.id ≢ [])
          × (s.commands
              ≡ xadd dead_stream values (pos 0) ∷ xack msg.stream group (msg.id ∷ []) ∷ [])
          × (s.result ≡ exec s.commands))

  -- What the check before the acknowledgement finds.
  lacking :
      (group : Text) (msg : Message V) (e : Text)
      → ack_ready marshal text inject exec group msg ≡ err e
      → ((group ≡ []) ⊎ (msg.stream ≡ []) ⊎ (msg.id ≡ []))
        × (e ≡ codes "stream: group, source stream, and source ID are required")
  lacking group msg e h =
      ground (arith, h, beq_iff group [], beq_iff msg.stream [], beq_iff msg.id [])

  complete :
      (group : Text) (msg : Message V)
      → ack_ready marshal text inject exec group msg ≡ ok tt
      → (group ≢ []) × (msg.stream ≢ []) × (msg.id ≢ [])
  complete group msg h =
      ground (arith, h, beq_iff group [], beq_iff msg.stream [], beq_iff msg.id [])

  -- DeadLetterAndAck, for extra values of distinct keys. The dead letter has under source_id and
  -- source_stream where the message stood, and under any other key the extra value, or where there
  -- is none the value of the message. If these values are not valid, or the group, the stream or the
  -- identifier is empty, the error is returned and nothing is sent; else one transaction adds the dead
  -- letter and acknowledges the source message, and its result is returned. In the last case, and
  -- in it alone, the values are valid and none of the three is empty.
  pub dead_letter_atomic :
      (group dead_stream : Text) (msg : Message V) (extra : Values V)
      → IsDistinct (keys extra)
      → (values : Values V) × ((k : Text) → lookup k values ≡ expected msg extra k)
        × Outcome group dead_stream msg values
            (dead_letter_and_ack marshal text inject exec group dead_stream msg extra)
  unfolding dead_letter_and_ack
  dead_letter_atomic group dead_stream msg extra d =
      let values = dead_values marshal text inject exec msg extra in
      let P = Outcome group dead_stream msg values in
      (
        values,
        λ k. contents msg extra k d,
        when-cases P (validate_message_values marshal values) (λ e h. inl (e, h, refl))
            (λ valid.
              when-cases P (ack_ready marshal text inject exec group msg)
                (λ e h.
                  let (empty, same) = lacking group msg e h in
                  inr (inl (valid, empty, ap refused same)))
                (λ h.
                  let (has_group, has_stream, has_id) = complete group msg h in
                  inr (inr (valid, has_group, has_stream, has_id, refl, refl)))),
      )
