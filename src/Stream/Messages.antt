-- ===== src/Stream/Messages.antt =====
-- contrib/stream/redis/stream.go: reads, claims, acknowledgements and dead letters. The Redis client
-- and json.Marshal are parameters; spans and the trace context of a message are left out, and the
-- client is not nil.
use dilu_go_kit.Base.{
  List, [], ◌∷◌, ◌++◌, Option, none, some, Bool, false, ◌||◌, if◌then◌else◌, ltb,
}
use dilu_go_kit.Base.Int.{ℤ, pos, leb_ℤ, clamped}
use dilu_go_kit.Base.Result.{Result, ok, err, ◌>>=◌}
use dilu_go_kit.Base.Text.{Text, beq, codes, len, trim_space, contains, has_prefix}

-- strings.Contains
unfoldable pub contains_text : (needle s : Text) → Bool
contains_text needle [] = beq needle []
contains_text needle (c ∷ s) = has_prefix needle (c ∷ s) || contains_text needle s

-- map[string]any. A nil map has no entries.
abbrev pub Values : Type 0 → Type 0
Values V = List (Text × V)

pub record Message (V : Type 0) : Type 0 where
  pub stream : Text
  pub id : Text
  pub values : Values V

-- redis.XMessage and redis.XStream
pub record XMessage (V : Type 0) : Type 0 where
  pub id : Text
  pub values : Values V

pub record XStream (V : Type 0) : Type 0 where
  pub stream : Text
  pub messages : List (XMessage V)

-- An error of the client: redis.Nil, or another with its text.
pub data ClientError : Type 0 where
  redis_nil : ClientError
  other : Text → ClientError

abbrev pub client_text : ClientError → Text
client_text redis_nil = codes "redis: nil"
client_text (other t) = t

pub record ReaderConfig : Type 0 where
  pub stream : Text
  pub group : Text
  pub consumer : Text
  pub count : ℤ
  pub block : ℤ

pub record ClaimConfig : Type 0 where
  pub stream : Text
  pub group : Text
  pub consumer : Text
  pub min_idle : ℤ
  pub start : Text
  pub count : ℤ

-- validateStreamName. The errors of this package are their texts.
unfoldable pub validate_stream_name : Text → Result Text (Unit {0})
validate_stream_name name =
    let n = trim_space name in
    if beq n [] || ltb 256 (len n) || contains 13 n || contains 10 n
    then err (codes "stream: invalid stream name")
    else ok tt

-- isBusyGroup
abbrev pub is_busy_group : Option ClientError → Bool
is_busy_group none = false
is_busy_group (some e) = contains_text (codes "BUSYGROUP") (client_text e)

abbrev pub to_error : Option ClientError → Option Text
to_error none = none
to_error (some e) = some (client_text e)

-- EnsureGroup; `create` is XGroupCreateMkStream, and `none` no error.
unfoldable pub ensure_group :
    (create : (stream group start : Text) → Option ClientError) (stream group start : Text)
    → Option Text
unfolding validate_stream_name contains_text
ensure_group create stream group start = elim (validate_stream_name stream) [
  | err e ↦ some e
  | ok u ↦
      let e = create stream group (if beq start [] then codes "0" else start) in
      if beq (trim_space group) [] || ltb 128 (len group)
      then some (codes "stream: invalid consumer group")
      else if is_busy_group e
      then none
      else to_error e
]

abbrev pub count_or_default : ℤ → ℤ
count_or_default = clamped (pos 10) (pos 1000)

abbrev pub names_given : (group consumer : Text) → Result Text (Unit {0})
names_given group consumer =
    if beq (trim_space group) [] || beq (trim_space consumer) []
    then err (codes "stream: group and consumer are required")
    else ok tt

-- XAutoClaim(...).Result(), and the results of ClaimStale.
pub record ClaimReply (V : Type 0) : Type 0 where
  pub messages : List (XMessage V)
  pub next : Text
  pub error : Option ClientError

pub record Claimed (V : Type 0) : Type 0 where
  pub messages : List (Message V)
  pub next : Text
  pub error : Option Text

module _ {V : Type 0} (marshal : Values V → Result Text Text) where
  abbrev pub fits : Text → Result Text (Unit {0})
  fits encoded =
      if ltb 1_048_576 (len encoded)
      then err (codes "stream: message exceeds 1 MiB limit")
      else ok tt

  -- validateMessageValues
  unfoldable pub validate_message_values : Values V → Result Text (Unit {0})
  validate_message_values [] = err (codes "stream: message values are required")
  validate_message_values (e ∷ vs) = marshal (e ∷ vs) >>= fits

  -- normalize. Maps are values here, so that a clone is the map itself.
  abbrev pub messages_of : Text → List (XMessage V) → List (Message V)
  messages_of s [] = []
  messages_of s (x ∷ xs) = record { stream = s; id = x.id; values = x.values } ∷ messages_of s xs

  abbrev pub normalize : List (XStream V) → List (Message V)
  normalize [] = []
  normalize (x ∷ xs) = messages_of x.stream x.messages ++ normalize xs

  -- The loop that validates each message.
  unfoldable pub validate_all : List (Message V) → Result Text (Unit {0})
  validate_all [] = ok tt
  validate_all (m ∷ ms) = validate_message_values m.values >>= λ _. validate_all ms

  abbrev pub read_reply : Result ClientError (List (XStream V)) → Result Text (List (Message V))
  read_reply (err redis_nil) = ok []
  read_reply (err (other e)) = err e
  read_reply (ok streams) = validate_all (normalize streams) >>= λ _. ok (normalize streams)

  -- What ReadGroup asks of XReadGroup.
  abbrev pub read_args : ReaderConfig → ReaderConfig
  read_args cfg = record cfg {
    count = count_or_default cfg.count;
    block = if leb_ℤ cfg.block (pos 0) then pos 5_000_000_000 else cfg.block;
  }

  -- ReadGroup; `read` is XReadGroup.
  unfoldable pub read_group :
      (ReaderConfig → Result ClientError (List (XStream V)))
      → ReaderConfig
      → Result Text (List (Message V))
  unfolding validate_stream_name validate_all
  read_group read cfg = validate_stream_name cfg.stream >>= λ _.
      names_given cfg.group cfg.consumer >>= λ _. read_reply (read (read_args cfg))

  abbrev pub claim_failed : Text → Text → Claimed V
  claim_failed next e = record { messages = []; next = next; error = some e }

  abbrev pub validated : List (Message V) → Text → Result Text (Unit {0}) → Claimed V
  validated ms next (err e) = claim_failed next e
  validated ms next (ok u) = record { messages = ms; next = next; error = none }

  abbrev pub claim_ok : Text → List (XMessage V) → Text → Claimed V
  claim_ok stream xs next =
      validated (messages_of stream xs) next (validate_all (messages_of stream xs))

  abbrev pub claim_reply : Text → List (XMessage V) → Text → Option ClientError → Claimed V
  claim_reply stream xs next none = claim_ok stream xs next
  claim_reply stream xs next (some redis_nil) = record { messages = []; next = next; error = none }
  claim_reply stream xs next (some (other e)) = claim_failed next e

  -- What ClaimStale asks of XAutoClaim.
  abbrev pub claim_args : ClaimConfig → ClaimConfig
  claim_args cfg = record cfg {
    start = if beq cfg.start [] then codes "0-0" else cfg.start;
    count = count_or_default cfg.count;
  }

  abbrev pub idle_given : ℤ → Result Text (Unit {0})
  idle_given v = if leb_ℤ v (pos 0) then err (codes "stream: min idle must be positive") else ok tt

  abbrev pub claim_checks : ClaimConfig → Result Text (Unit {0})
  unfolding validate_stream_name
  claim_checks cfg = validate_stream_name cfg.stream >>= λ _.
      names_given cfg.group cfg.consumer >>= λ _. idle_given cfg.min_idle

  abbrev pub claim_checked :
      (ClaimConfig → ClaimReply V) → ClaimConfig → Result Text (Unit {0}) → Claimed V
  claim_checked claim cfg (err e) = claim_failed [] e
  claim_checked claim cfg (ok u) =
      let r = claim (claim_args cfg) in claim_reply cfg.stream r.messages r.next r.error

  -- ClaimStale; `claim` is XAutoClaim.
  unfoldable pub claim_stale : (ClaimConfig → ClaimReply V) → ClaimConfig → Claimed V
  unfolding claim_checks
  claim_stale claim cfg = claim_checked claim cfg (claim_checks cfg)
