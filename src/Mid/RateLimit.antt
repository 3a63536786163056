-- ===== src/Mid/RateLimit.antt =====
-- mid/ratelimit.go: the in-memory rate limiter. A shard's mutex makes each request one step; time is
-- an argument, in nanoseconds.
pub mod Window
pub mod Capacity
use Prim.Native.Nat.{bit_xor}
use dilu_go_kit.Base.{
  ℕ, ◌+◌, ◌*◌, ◌/◌, ◌%◌, ◌^◌, List, [], ◌∷◌, Option, none, some, Bool, true, false, if◌then◌else◌,
  ltb, leb, ◌==◌, ◌&&◌, not, length,
}
use dilu_go_kit.Base.Int.{ℤ, pos, positive_or}
use dilu_go_kit.Base.Text.{Text, codes}
use dilu_go_kit.Base.Dict.{lookup, insert}
use dilu_go_kit.Resp.{Response, fail_status}

-- rateEntry
pub record Entry : Type 0 where
  pub count : ℕ
  pub reset_at : ℕ

abbrev pub Shard : Type 0
Shard = List (Text × Entry)

-- RateLimiter; a shard is found by its index.
pub record Limiter : Type 0 where
  pub max : ℕ
  pub window : ℕ
  pub max_clients : ℕ
  pub shards : ℕ → Shard

-- newRateLimiter; the clean-up goroutine is the operation `cleanup` below.
unfoldable pub new_limiter : ℤ → ℤ → Limiter
new_limiter max window = record {
  max = positive_or 1 max;
  window = positive_or 1_000_000_000 window;
  max_clients = 100_000;
  shards = λ i. [];
}

-- The loop of rateLimiterShardIndex over the bytes of an address, which is ASCII; uint32 wraps.
unfoldable pub hash_from : ℕ → Text → ℕ
hash_from hash [] = hash
hash_from hash (c ∷ s) = hash_from (bit_xor hash c * 16777619 % 2 ^ 32) s

-- rateLimiterShardIndex; `hash & 63` is the remainder by 64.
unfoldable pub shard_index : Text → ℕ
unfolding hash_from
shard_index key = hash_from 2166136261 key % 64

-- `now.After(entry.resetAt)`
abbrev pub expired : ℕ → Entry → Bool
expired now e = ltb e.reset_at now

-- The loop that deletes the entries that have expired.
unfoldable pub evict : ℕ → Shard → Shard
evict now [] = []
evict now ((k, e) ∷ m) = let rest = evict now m in if expired now e then rest else (k, e) ∷ rest

-- What the middleware does with a request: it calls the next handler, or answers and aborts.
pub data Verdict : Type 0 where
  next : Verdict
  abort : Response → Verdict

abbrev pub too_many_clients : Response
too_many_clients = record { status = 429; code = pos 42902; msg = codes "客户端数量过多" }

abbrev pub too_many_requests : Response
too_many_requests = record { status = 429; code = pos 42901; msg = codes "请求过于频繁" }

-- The last part of the handler: the entry is counted and stored, and its count decides.
admit : Limiter → Text → Shard → Entry → Shard × Verdict
admit l ip shard e =
    let e' = record e { count = e.count + 1 } in
    (insert ip e' shard, if ltb l.max e'.count then abort too_many_requests else next)

-- A client that has no entry: its shard may be full, also after the eviction.
newcomer : Limiter → Text → ℕ → Shard → Shard × Verdict
unfolding admit
newcomer l ip now shard =
    let fresh : Entry = record { count = 0; reset_at = now + l.window } in
    let bound = l.max_clients / 64 + 1 in
    let shard' =
      if ltb 0 l.max_clients && leb bound (length shard) then evict now shard else shard in
    if ltb 0 l.max_clients && leb bound (length shard) && leb bound (length shard')
    then (shard', abort too_many_clients)
    else admit l ip shard' fresh

handle_entry : Limiter → Text → ℕ → Shard → Option Entry → Shard × Verdict
unfolding admit newcomer
handle_entry l ip now shard none = newcomer l ip now shard
handle_entry l ip now shard (some e) =
    admit l ip shard (if expired now e then record { count = 0; reset_at = now + l.window } else e)

-- The handler on the shard of the client.
unfoldable pub handle_shard : Limiter → Text → ℕ → Shard → Shard × Verdict
unfolding handle_entry
handle_shard l ip now shard = handle_entry l ip now shard (lookup ip shard)

abbrev pub put_shard : (ℕ → Shard) → ℕ → Shard → ℕ → Shard
put_shard shards i shard j = if i == j then shard else shards j

-- Middleware
unfoldable pub handle : Limiter → Text → ℕ → Limiter × Verdict
handle l ip now =
    let i = shard_index ip in
    let (shard, verdict) = handle_shard l ip now (l.shards i) in
    (record l { shards = put_shard l.shards i shard }, verdict)

-- cleanupExpired
unfoldable pub cleanup : Limiter → ℕ → Limiter
cleanup l now = record l { shards = λ i. if ltb i 64 then evict now (l.shards i) else l.shards i }

-- A request, or a tick of the clean-up goroutine.
pub data Event : Type 0 where
  request : Text → ℕ → Event
  tick : ℕ → Event

unfoldable pub step : Limiter → Event → Limiter
step l (request ip now) = (handle l ip now).0
step l (tick now) = cleanup l now

unfoldable pub run : Limiter → List Event → Limiter
run l [] = l
run l (e ∷ es) = run (step l e) es
