-- ===== src/Mid/RateLimit/Window.antt =====
-- How many requests of one client pass in a window.
use dilu_go_kit.Base.{
  ℕ, suc, ◌+◌, ◌-◌, ◌/◌, ◌⊎◌, ◌≤◌, ◌<◌, ◌≡◌, refl, List, [], ◌∷◌, Option, none, some, Bool, true,
  false, if◌then◌else◌, ltb, ◌&&◌, arith, All, length, Option-cases, inl, inr, ◌∙◌,
}
use Prim.Native.Nat.{min}
use dilu_go_kit.Base.Text.{Text, beq, beq_iff}
use dilu_go_kit.Base.Dict.{lookup, lookup-insert}
use dilu_go_kit.Mid.RateLimit.{
  Entry, Shard, Limiter, Verdict, next, abort, evict, shard_index, handle_shard, handle, cleanup,
  Event, request, tick, step, admit, newcomer, too_many_requests,
}

abbrev pub is_next : Verdict → Bool
is_next next = true
is_next (abort r) = false

-- The entry of a client.
abbrev pub entry : Limiter → Text → Option Entry
entry l ip = lookup ip (l.shards (shard_index ip))

lookup-evict :
    (ip : Text) (now : ℕ) (m : Shard) (e : Entry)
    → lookup ip m ≡ some e
    → now ≤ e.reset_at
    → lookup ip (evict now m) ≡ some e
unfolding lookup evict
lookup-evict ip now [] e h le = cc
lookup-evict ip now ((k, f) ∷ m) e h le = ground (arith, lookup-evict ip now m e)

-- The client's own request within the window of its entry.
own_request :
    (l : Limiter) (ip : Text) (now : ℕ) (m : Shard) (e : Entry)
    → lookup ip m ≡ some e
    → now ≤ e.reset_at
    → (lookup ip (handle_shard l ip now m).0 ≡ some (record e { count = e.count + 1 }))
      × ((handle_shard l ip now m).1
          ≡ (if ltb e.count l.max then next else abort too_many_requests))
unfolding handle_shard
own_request l ip now m e h le =
    ground (arith, lookup-insert ip ip (record e { count = e.count + 1 }) m, beq_iff ip ip)

admit_other :
    (l : Limiter) (ip other : Text) (m : Shard) (f : Entry)
    → beq other ip ≡ false
    → lookup ip (admit l other m f).0 ≡ lookup ip m
unfolding admit
admit_other l ip other m f ne = rw (lookup-insert other ip (record f { count = f.count + 1 }) m, ne)

newcomer_other :
    (l : Limiter) (ip other : Text) (now : ℕ) (m : Shard) (e : Entry)
    → lookup ip m ≡ some e
    → now ≤ e.reset_at
    → beq other ip ≡ false
    → lookup ip (newcomer l other now m).0 ≡ some e
unfolding newcomer
newcomer_other l ip other now m e h le ne =
    let fresh : Entry = record { count = 0; reset_at = now + l.window } in
    ground (
      arith,
      admit_other l ip other m fresh ne,
      admit_other l ip other (evict now m) fresh ne,
      lookup-evict ip now m e h le,
    )

-- Another client's request in the same shard.
other_request :
    (l : Limiter) (ip other : Text) (now : ℕ) (m : Shard) (e : Entry)
    → lookup ip m ≡ some e
    → now ≤ e.reset_at
    → beq other ip ≡ false
    → lookup ip (handle_shard l other now m).0 ≡ some e
unfolding handle_shard
other_request l ip other now m e h le ne = elim (Option-cases (lookup other m)) [
  | inl absent ↦ rw (absent, handle_shard) (newcomer_other l ip other now m e h le ne)
  | inr (f, found) ↦ rw (found, handle_shard) (admit_other l ip other m _ ne ∙ h)
]

-- A step within the window of the entry `e` of the client keeps the entry, counting the client's
-- own requests.
abbrev pub hits : Text → Event → ℕ
hits ip (request other now) = if beq other ip then 1 else 0
hits ip (tick now) = 0

abbrev pub time : Event → ℕ
time (request other now) = now
time (tick now) = now

entry-step :
    (l : Limiter) (ip : Text) (ev : Event) (e : Entry)
    → entry l ip ≡ some e
    → time ev ≤ e.reset_at
    → entry (step l ev) ip ≡ some (record e { count = e.count + hits ip ev })
unfolding step handle cleanup
entry-step l ip (request other now) e h le = ground (
  arith,
  beq_iff other ip,
  own_request l ip now (l.shards (shard_index ip)) e h le,
  other_request l ip other now (l.shards (shard_index ip)) e h le,
)
entry-step l ip (tick now) e h le =
    ground (arith, lookup-evict ip now (l.shards (shard_index ip)) e h le)

-- The verdicts that the client's requests get along a history.
unfoldable pub passes : Limiter → Text → List Event → ℕ
passes l ip [] = 0
passes l ip (request other now ∷ es) =
    let rest = passes (step l (request other now)) ip es in
    if beq other ip && is_next (handle l other now).1 then suc rest else rest
passes l ip (tick now ∷ es) = passes (step l (tick now)) ip es

-- The client's requests in a history.
abbrev pub requests : Text → List Event → ℕ
requests ip [] = 0
requests ip (e ∷ es) = hits ip e + requests ip es

step-max : (l : Limiter) (e : Event) → (step l e).max ≡ l.max
unfolding step handle cleanup
step-max l (request ip now) = refl
step-max l (tick now) = refl

-- Whether the client's own request passes within the window of its entry.
own_verdict :
    (l : Limiter) (ip : Text) (now : ℕ) (e : Entry)
    → entry l ip ≡ some e
    → now ≤ e.reset_at
    → is_next (handle l ip now).1 ≡ ltb e.count l.max
unfolding handle
own_verdict l ip now e h le =
    ground (arith, own_request l ip now (l.shards (shard_index ip)) e h le)

-- A client has an entry, and nothing in the history comes after its window. Then, of the client's
-- requests in the history, exactly as many pass as the limit leaves beyond the requests that the
-- entry has counted, whatever the other clients and the clean-up do in between.
pub window_passes :
    (l : Limiter) (ip : Text) (e : Entry) (es : List Event)
    → entry l ip ≡ some e
    → All (λ ev. time ev ≤ e.reset_at) es
    → passes l ip es ≡ min (requests ip es) (l.max - e.count)
unfolding passes
window_passes l ip e [] h within = omega arith
window_passes l ip e (request other now ∷ es) h within = ground (
  arith,
  beq_iff other ip,
  own_verdict l ip now e h within.0,
  step-max l (request other now),
  window_passes (step l (request other now)) ip
      (record e { count = e.count + hits ip (request other now) }) es
      (entry-step l ip (request other now) e h within.0) within.1,
)
window_passes l ip e (tick now ∷ es) h within = ground (
  arith,
  step-max l (tick now),
  window_passes (step l (tick now)) ip (record e { count = e.count + 0 }) es
      (entry-step l ip (tick now) e h within.0) within.1,
)

-- No entry of the client is in force at `now`, and there is room for one.
abbrev pub Starts : Limiter → Text → ℕ → Type 0
Starts l ip now =
    ((entry l ip ≡ none) × (length (l.shards (shard_index ip)) ≤ l.max_clients / 64))
    ⊎ ((e : Entry) × (entry l ip ≡ some e) × (e.reset_at < now))

opening :
    (l : Limiter) (ip : Text) (now : ℕ)
    → 0 < l.max
    → Starts l ip now
    → (entry (handle l ip now).0 ip ≡ some (record { count = 1; reset_at = now + l.window }))
      × (is_next (handle l ip now).1 ≡ true)
unfolding handle handle_shard newcomer admit
opening l ip now room (inl (absent, small)) = ground (
  arith,
  beq_iff ip ip,
  lookup-insert ip ip (record { count = 1; reset_at = now + l.window }) (l.shards (shard_index ip)),
)
opening l ip now room (inr (e, held, over)) = ground (
  arith,
  beq_iff ip ip,
  lookup-insert ip ip (record { count = 1; reset_at = now + l.window }) (l.shards (shard_index ip)),
)

-- A client without an entry in force, for whom the shard has room, sends a request to a limiter
-- that allows at least one, and all that follows lies within one window of it: of this request and
-- those that follow, as many of the client's pass as the limit allows and no more, whatever the
-- other clients and the clean-up do in between.
pub fresh_window :
    (l : Limiter) (ip : Text) (now : ℕ) (es : List Event)
    → 0 < l.max
    → Starts l ip now
    → All (λ ev. time ev ≤ now + l.window) es
    → passes l ip (request ip now ∷ es) ≡ min (1 + requests ip es) l.max
unfolding passes
fresh_window l ip now es room start within =
    let (held, passed) = opening l ip now room start in
    let e : Entry = record { count = 1; reset_at = now + l.window } in
    ground (
      arith,
      beq_iff ip ip,
      passed,
      step-max l (request ip now),
      window_passes (step l (request ip now)) ip e es (unfold step in held) within,
    )
