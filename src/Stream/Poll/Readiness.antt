-- ===== src/Stream/Poll/Readiness.antt =====
-- When a poll ensures the group, when it reads, and what it remembers.
use dilu_go_kit.Base.{
  ℕ, ◌≡◌, refl, sym, ap, suc, inl, inr, List, [], ◌∷◌, Option, none, some, Bool, true, false, ◌&&◌,
  ◌||◌, not, if◌then◌else◌, Bool-cases,
}
use dilu_go_kit.Base.Float.{Float64}
use dilu_go_kit.Base.Result.{Result, ok, err}
use dilu_go_kit.Base.Text.{Text, codes}
use dilu_go_kit.Stream.Group.{GroupConsumerConfig}
use dilu_go_kit.Stream.Messages.{
  Values, Message, contains_text, ensure_group, read_group, claim_stale,
}
use dilu_go_kit.Stream.Poll.{
  Poll, Select, done, ticked, quiet, Replies, Call, ensured, was_read, claimed, handled, Polled,
  poll, read_part, claim_part, invoke, after_claim, after_read, reader, claim_from, finished,
  claim_select, claim_now, after_ensure,
}

abbrev pub to_nat : Bool → ℕ
to_nat b = if b then 1 else 0

abbrev pub is_none : Option Text → Bool
is_none none = true
is_none (some e) = false

module _ {V : Type 0} where
  abbrev pub ensures : List (Call V) → ℕ
  ensures [] = 0
  ensures (ensured ∷ cs) = suc (ensures cs)
  ensures (was_read ∷ cs) = ensures cs
  ensures (claimed start ∷ cs) = ensures cs
  ensures (handled ms ∷ cs) = ensures cs

  abbrev pub reads : List (Call V) → ℕ
  reads [] = 0
  reads (was_read ∷ cs) = suc (reads cs)
  reads (ensured ∷ cs) = reads cs
  reads (claimed start ∷ cs) = reads cs
  reads (handled ms ∷ cs) = reads cs

  -- The error that says that the group is gone.
  abbrev pub is_lost : Result Text (List (Message V)) → Bool
  is_lost (ok ms) = false
  is_lost (err e) = contains_text (codes "NOGROUP") e

  -- What follows the read: no more of these calls, and the group as it was.
  Tail : Poll → Polled V → Type 0
  Tail p q = (ensures q.calls ≡ 0) × (reads q.calls ≡ 0) × (q.state.group_ready ≡ p.group_ready)

  module _ (marshal : Values V → Result Text Text) {f : Float64} (cfg : GroupConsumerConfig f) where
    invoke-Tail :
        (r : Replies V) (p : Poll) (ms : List (Message V)) (next : Polled V)
        → Tail p next
        → Tail p (invoke marshal cfg r p ms next)
    unfolding Tail
    invoke-Tail r p [] next h = h
    invoke-Tail r p (m ∷ ms) next h = elim (Bool-cases (r.panics (m ∷ ms))) [
      | inl e ↦ rw e (refl, refl, refl)
      | inr e ↦ rw e h
    ]

    after_claim-Tail :
        (r : Replies V) (p : Poll) (ms : List (Message V)) (next : Text) (e : Option Text)
        → Tail p (after_claim marshal cfg r p ms next e)
    unfolding Tail
    after_claim-Tail r p ms next (some e) = (refl, refl, refl)
    after_claim-Tail r p ms next none =
        let p' = record p { claim_cursor = next } in
        invoke-Tail r p' ms (finished marshal cfg p') (refl, refl, refl)

    claim_select-Tail :
        (r : Replies V) (p : Poll) (s : Select) → Tail p (claim_select marshal cfg r p s)
    unfolding Tail claim_select claim_now claim_stale
    claim_select-Tail r p (done e) = (refl, refl, refl)
    claim_select-Tail r p quiet = (refl, refl, refl)
    claim_select-Tail r p ticked =
        let c = claim_stale marshal r.claim (claim_from marshal cfg p.claim_cursor) in
        after_claim-Tail r p c.messages c.next c.error

    claim_part-Tail : (r : Replies V) (p : Poll) → Tail p (claim_part marshal cfg r p)
    unfolding Tail claim_part claim_select
    claim_part-Tail r p = elim (Bool-cases cfg.disable_claim) [
      | inl h ↦ rw h (refl, refl, refl)
      | inr h ↦ rw h (claim_select-Tail r p r.selected)
    ]

    after_read_lem :
        (r : Replies V) (p : Poll) (reply : Result Text (List (Message V)))
        → p.group_ready ≡ true
        → let q = after_read marshal cfg r p reply in
          (ensures q.calls ≡ 0) × (reads q.calls ≡ 0) × (q.state.group_ready ≡ not (is_lost reply))
    unfolding after_read Tail
    after_read_lem r p (ok ms) ready = rw (sym ready) (invoke-Tail r p ms _ (claim_part-Tail r p))
    after_read_lem r p (err e) ready = elim (Bool-cases (contains_text (codes "NOGROUP") e)) [
      | inl h ↦ rw h (refl, refl, refl)
      | inr h ↦ rw h (refl, refl, ready)
    ]

    -- Whether the group is there when the poll would read.
    abbrev pub available : Replies V → Poll → Bool
    unfolding ensure_group
    available r p =
        p.group_ready || is_none (ensure_group r.create cfg.stream cfg.group cfg.start_id)

    read_part_lem :
        (r : Replies V) (c : Text)
        → let q = read_part marshal cfg r (record { group_ready = true; claim_cursor = c }) in
          (ensures q.calls ≡ 0)
          × (reads q.calls ≡ 1)
          × (q.state.group_ready ≡ not (is_lost (read_group marshal r.read (reader marshal cfg))))
    unfolding read_part after_read
    read_part_lem r c =
        let reply = read_group marshal r.read (reader marshal cfg) in
        let (no_ensure, no_read, ready) =
          after_read_lem r (record { group_ready = true; claim_cursor = c }) reply refl in
        (no_ensure, ap suc no_read, ready)

    after_ensure_lem :
        (r : Replies V) (c : Text) (e : Option Text)
        → let q = after_ensure marshal cfg r (record { group_ready = false; claim_cursor = c }) e in
          (ensures q.calls ≡ 0)
          × (reads q.calls ≡ to_nat (is_none e))
          × (q.state.group_ready
              ≡ (is_none e && not (is_lost (read_group marshal r.read (reader marshal cfg)))))
    unfolding after_ensure
    after_ensure_lem r c none = read_part_lem r c
    after_ensure_lem r c (some e) = (refl, refl, refl)

    Readiness : Replies V → Poll → Type 0
    Readiness r p =
        let q = poll marshal cfg r p in
        (ensures q.calls ≡ to_nat (not p.group_ready))
        × (reads q.calls ≡ to_nat (available r p))
        × (q.state.group_ready
            ≡ (available r p && not (is_lost (read_group marshal r.read (reader marshal cfg)))))

    by_ready :
        (r : Replies V) (ready : Bool) (c : Text)
        → Readiness r (record { group_ready = ready; claim_cursor = c })
    unfolding Readiness poll available
    by_ready r true c = read_part_lem r c
    by_ready r false c =
        let (no_ensure, read, ready) =
          after_ensure_lem r c (ensure_group r.create cfg.stream cfg.group cfg.start_id) in
        (ap suc no_ensure, read, ready)

    -- One poll, from any state and with any replies. EnsureGroup is called once if the group was not
    -- known to be ready, else not at all; ReadGroup is called once if the group is ready or
    -- EnsureGroup succeeded, else not at all; and afterwards the group counts as ready just if it was
    -- read and ReadGroup did not fail with NOGROUP.
    pub poll_readiness :
        (r : Replies V) (p : Poll)
        → let q = poll marshal cfg r p in
          (ensures q.calls ≡ to_nat (not p.group_ready))
          × (reads q.calls ≡ to_nat (available r p))
          × (q.state.group_ready
              ≡ (available r p && not (is_lost (read_group marshal r.read (reader marshal cfg)))))
    unfolding Readiness
    poll_readiness r p = by_ready r p.group_ready p.claim_cursor
