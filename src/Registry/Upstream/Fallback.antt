-- ===== src/Registry/Upstream/Fallback.antt =====
-- What a consumer of the channel sees during and after an outage.
use dilu_go_kit.Base.{
  ℕ, List, [], ◌∷◌, Option, none, some, true, false, if◌then◌else◌, arith, not, ◌&&◌, ◌++◌, ap, ◌≡◌,
  ◌≢◌, refl, ltb, ◌+◌, ◌∙◌, All,
}
use dilu_go_kit.Base.Int.{pos}
use dilu_go_kit.Registry.{Service, normalize_services}
use dilu_go_kit.Registry.Services.{normalize_nil, normalize-ne-nil}
use dilu_go_kit.Registry.Filter.{Filter, filter_services}
use dilu_go_kit.Registry.Upstream.{
  State, Shot, snapshot, Watch, armed, found, publish, rounds, send, since_or, snapshot_of,
  is_empty,
}

abbrev pub kept : Filter → Option (List Service) → List Service
kept filter result = filter_services (found result) filter

-- The watch after a round, whether or not a snapshot was sent.
abbrev settled : Shot → ℕ → Watch
settled shot now = record {
  state = shot.next;
  last_sent = shot.shown;
  expires_at = armed now shot.expires_in;
}

send-settled : (w : Watch) (shot : Shot) (now : ℕ) → (send w shot now).0 ≡ settled shot now
unfolding send
send-settled w shot now = ground arith

-- The snapshot, and the stale timer, of an outage that began at `start`.
abbrev pub outage_view : ℕ → List Service → (start now : ℕ) → Watch
outage_view grace good start now = record {
  state = record { last_good = good; stale_since = some start };
  last_sent = record {
    services = if ltb now (start + grace) then good else [];
    stale = true;
    stale_since = some start;
  };
  expires_at =
      if not (is_empty good) && ltb now (start + grace) then some (start + grace) else none;
}

down :
    (grace : ℕ) (st : State) (now : ℕ)
    → settled (snapshot_of st [] now (pos grace)) now
      ≡ outage_view grace st.last_good (since_or now st.stale_since) now
unfolding snapshot_of
down grace st now = ground arith

-- The view after a discovery that found instances.
abbrev pub fresh_view : List Service → Watch
fresh_view good = record {
  state = record { last_good = good; stale_since = none };
  last_sent = record { services = good; stale = false; stale_since = none };
  expires_at = none;
}

up :
    (grace : ℕ) (st : State) (services : List Service) (now : ℕ)
    → normalize_services services ≢ []
    → settled (snapshot st services now (pos grace)) now ≡ fresh_view (normalize_services services)
unfolding snapshot snapshot_of
up grace st services now h = ground arith

module _ (filter : Filter) (grace : ℕ) where
  publish-settled :
      (w : Watch) (result : Option (List Service)) (now : ℕ)
      → (publish filter (pos grace) w result now).0
        ≡ settled (snapshot w.state (kept filter result) now (pos grace)) now
  unfolding publish
  publish-settled w result now =
      send-settled w (snapshot w.state (kept filter result) now (pos grace)) now

  -- A round without services, where the outage began at `start` or begins now.
  settled_down :
      (st : State) (services : List Service) (now : ℕ)
      → services ≡ []
      → settled (snapshot st services now (pos grace)) now
        ≡ outage_view grace st.last_good (since_or now st.stale_since) now
  unfolding snapshot
  settled_down st services now e = rw (e, normalize_nil) (down grace st now)

  -- Rounds without services leave the view of the outage as it was, but for the time.
  rounds_down :
      (w : Watch) (start : ℕ) (rs : List (Option (List Service) × ℕ))
      (result : Option (List Service)) (now : ℕ)
      → w.state.stale_since ≡ some start
      → All (λ r. kept filter r.0 ≡ []) rs
      → kept filter result ≡ []
      → rounds filter (pos grace) w (rs ++ (result, now) ∷ [])
        ≡ outage_view grace w.state.last_good start now
  unfolding rounds
  rounds_down w start [] result now e fails fail =
      publish-settled w result now
      ∙ settled_down w.state (kept filter result) now fail
      ∙ ap (λ o. outage_view grace w.state.last_good (since_or now o) now) e
  rounds_down w start ((r, t) ∷ rs) result now e fails fail =
      let first = publish-settled w r t ∙ settled_down w.state (kept filter r) t fails.0 in
      let start_same = ap (since_or t) e in
      rounds_down (publish filter (pos grace) w r t).0 start rs result now
        (ap (λ (v : Watch). v.state.stale_since) first ∙ ap some start_same) fails.1 fail
      ∙ ap (λ (v : Watch). outage_view grace v.state.last_good start now) first

  rounds-append :
      (w : Watch) (rs qs : List (Option (List Service) × ℕ))
      → rounds filter (pos grace) w (rs ++ qs)
        ≡ rounds filter (pos grace) (rounds filter (pos grace) w rs) qs
  unfolding rounds
  rounds-append w [] qs = refl
  rounds-append w ((r, t) ∷ rs) qs = rounds-append (publish filter (pos grace) w r t).0 rs qs

  publish_good :
      (w : Watch) (result : Option (List Service)) (now : ℕ)
      → kept filter result ≢ []
      → (publish filter (pos grace) w result now).0
        ≡ fresh_view (normalize_services (kept filter result))
  publish_good w result now h =
      publish-settled w result now
      ∙ up grace w.state (kept filter result) now (normalize-ne-nil (kept filter result) h)

  -- Whatever happened before, a discovery that leaves an instance after the filter makes the
  -- consumer hold exactly the normalized instances found, not stale, and disarms the stale timer.
  pub rounds_recover :
      (w : Watch) (rs : List (Option (List Service) × ℕ)) (result : Option (List Service)) (now : ℕ)
      → kept filter result ≢ []
      → rounds filter (pos grace) w (rs ++ (result, now) ∷ [])
        ≡ fresh_view (normalize_services (kept filter result))
  unfolding rounds
  rounds_recover w rs result now h =
      rounds-append w rs ((result, now) ∷ [])
      ∙ publish_good (rounds filter (pos grace) w rs) result now h

  -- An outage: a discovery that leaves an instance, then one at `start` that fails or leaves none,
  -- then any number of such ones, the last at `now`. The consumer then holds a stale snapshot that
  -- says since when, with the instances of the good discovery if `now` is before `start` + grace, and
  -- with none from then on; the stale timer is set to that moment, whenever the rounds came, and is
  -- not set again after it.
  pub rounds_outage :
      (w : Watch) (good : Option (List Service)) (before : ℕ) (first : Option (List Service))
      (start : ℕ) (rs : List (Option (List Service) × ℕ)) (result : Option (List Service)) (now : ℕ)
      → kept filter good ≢ []
      → kept filter first ≡ []
      → All (λ r. kept filter r.0 ≡ []) rs
      → kept filter result ≡ []
      → rounds filter (pos grace) w ((good, before) ∷ (first, start) ∷ (rs ++ (result, now) ∷ []))
        ≡ outage_view grace (normalize_services (kept filter good)) start now
  unfolding rounds
  rounds_outage w good before first start rs result now h f fs l =
      let up_w = (publish filter (pos grace) w good before).0 in
      let up_is = publish_good w good before h in
      let down_w = (publish filter (pos grace) up_w first start).0 in
      let down_is =
        publish-settled up_w first start
        ∙ settled_down up_w.state (kept filter first) start f
        ∙ ap
            (λ (v : Watch).
              outage_view grace v.state.last_good (since_or start v.state.stale_since) start)
            up_is in
      rounds_down down_w start rs result now (ap (λ (v : Watch). v.state.stale_since) down_is) fs l
      ∙ ap (λ (v : Watch). outage_view grace v.state.last_good start now) down_is
