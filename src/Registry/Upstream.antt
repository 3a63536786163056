-- ===== src/Registry/Upstream.antt =====
-- WatchUpstreamsWithOptions of registry/registry.go: the last-known-good fallback, and the loop that
-- publishes snapshots.
pub mod Fallback
use dilu_go_kit.Base.{
  ℕ, List, [], ◌∷◌, Option, none, some, Bool, true, false, if◌then◌else◌, arith, ◌≡◌, refl, ltb,
  ◌&&◌, not, ◌+◌, ◌∙◌,
}
use native.Mathlib.Decide.{ℕ_discrete}
use mathlib.Core.Logic.{ite}
use dilu_go_kit.Base.Int.{ℤ, pos, negsuc, ◌-ℤ◌, ltb_ℤ}
use dilu_go_kit.Registry.{Service, normalize_services}
use dilu_go_kit.Registry.Filter.{Filter, filter_services}

-- UpstreamSnapshot; the zero time is `none`.
pub record Snapshot : Type 0 where
  pub services : List Service
  pub stale : Bool
  pub stale_since : Option ℕ

-- upstreamState
pub record State : Type 0 where
  pub last_good : List Service
  pub stale_since : Option ℕ

abbrev pub is_empty : List Service → Bool
is_empty [] = true
is_empty (s ∷ ss) = false

abbrev pub since_or : ℕ → Option ℕ → ℕ
since_or now none = now
since_or now (some t) = t

-- The result of `snapshot`: the new state, the snapshot, and how long until the fallback expires.
pub record Shot : Type 0 where
  pub next : State
  pub shown : Snapshot
  pub expires_in : ℤ

-- upstreamState.snapshot on normalized services.
unfoldable pub snapshot_of : State → List Service → ℕ → ℤ → Shot
snapshot_of st services now grace =
    let since = since_or now st.stale_since in
    let stale_state = record st { stale_since = some since } in
    let remaining = grace -ℤ (pos now -ℤ pos since) in
    if not (is_empty services)
    then record {
      next = record { last_good = services; stale_since = none };
      shown = record { services = services; stale = false; stale_since = none };
      expires_in = pos 0;
    }
    else if not (is_empty st.last_good) && ltb_ℤ (pos 0) remaining
    then record {
      next = stale_state;
      shown = record { services = st.last_good; stale = true; stale_since = some since };
      expires_in = remaining;
    }
    else record {
      next = stale_state;
      shown = record { services = []; stale = true; stale_since = some since };
      expires_in = pos 0;
    }

-- upstreamState.snapshot
unfoldable pub snapshot : State → List Service → ℕ → ℤ → Shot
unfolding snapshot_of
snapshot st services now grace = snapshot_of st (normalize_services services) now grace

-- reflect.DeepEqual on snapshots.
pub Snapshot-discrete : Discrete Snapshot
Snapshot-discrete = hlevel ℕ_discrete

-- The variables of the loop: the state, the snapshot sent last, and the stale timer, which is armed
-- where `expires_at` is a time.
pub record Watch : Type 0 where
  pub state : State
  pub last_sent : Snapshot
  pub expires_at : Option ℕ

abbrev pub armed : ℕ → ℤ → Option ℕ
armed now (pos d) = if ltb 0 d then some (now + d) else none
armed now (negsuc d) = none

-- A discovery result: `none` is an error.
abbrev pub found : Option (List Service) → List Service
found none = []
found (some ss) = ss

-- The second half of publish: the timer is reset, and the snapshot is sent unless it equals the one
-- sent last.
unfoldable pub send : Watch → Shot → ℕ → Watch × Option Snapshot
send w shot now =
    let w' = record w { state = shot.next; expires_at = armed now shot.expires_in } in
    ite (Snapshot-discrete shot.shown w.last_sent) (w', none)
      (record w' { last_sent = shot.shown }, some shot.shown)

module _ (filter : Filter) (grace : ℤ) where
  -- The start of the goroutine, with the services of the initial discovery.
  unfoldable pub begin : List Service → ℕ → Watch
  begin services now =
      let kept = filter_services services filter in
      let shot =
        snapshot (record { last_good = normalize_services kept; stale_since = none }) kept now
          grace in
      record { state = shot.next; last_sent = shot.shown; expires_at = armed now shot.expires_in }

  -- publish: the loop's reaction to an event, a resync or the stale timer, with what Discover then
  -- returned. The second component is the snapshot that is sent, if one is.
  unfoldable pub publish : Watch → Option (List Service) → ℕ → Watch × Option Snapshot
  unfolding send
  publish w result now =
      let shot = snapshot w.state (filter_services (found result) filter) now grace in
      send w shot now

  -- What a consumer of the channel holds after some rounds: the snapshot sent last.
  unfoldable pub rounds : Watch → List (Option (List Service) × ℕ) → Watch
  rounds w [] = w
  rounds w ((result, now) ∷ rs) = rounds (publish w result now).0 rs
