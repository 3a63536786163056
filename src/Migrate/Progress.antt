-- ===== src/Migrate/Progress.antt =====
-- A goroutine that is left alone gets its version: in two turns, or in three after a lost swap.
use dilu_go_kit.Base.{
  ℕ, ◌+◌, ◌<◌, ◌≡◌, refl, ◌∙◌, List, [], ◌∷◌, true, false, ◌==◌, arith, Bool-cases, inl, inr,
}
use dilu_go_kit.Migrate.{
  Worker, idle, looping, loaded, World, above, move, compare_and_swap, turn, Event, go, step, run,
  start,
}
use dilu_go_kit.Migrate.Order.{Ahead, Rising, FallFrom-Rising, above_lem, run-Inv, start-Inv}

abbrev pub IsBusy : Worker → Type 0
IsBusy idle = ⊥
IsBusy (looping candidate) = Unit {0}
IsBusy (loaded previous candidate) = Unit {0}

-- A new version, above the last one, has been handed out between the two worlds.
abbrev pub Issued : (before after : World) → Type 0
Issued s t = (v : ℕ) × (t.issued ≡ v ∷ s.issued) × (s.last < v)

eq_self : (n : ℕ) → (n == n) ≡ true
eq_self n = ground arith

module _ (i : ℕ) where
  after_idle : (s : World) → s.workers i ≡ idle → step s (go i) ≡ s
  unfolding step turn
  after_idle s h = rw h refl

  after_looping :
      (s : World) (candidate : ℕ)
      → s.workers i ≡ looping candidate
      → step s (go i) ≡ move i s (loaded s.last (above candidate s.last))
  unfolding step turn
  after_looping s candidate h = rw h refl

  after_loaded :
      (s : World) (previous candidate : ℕ)
      → s.workers i ≡ loaded previous candidate
      → step s (go i) ≡ compare_and_swap i previous candidate s
  unfolding step turn
  after_loaded s previous candidate h = rw h refl

  move_worker : (s : World) (w : Worker) → (move i s w).workers i ≡ w
  move_worker s w = rw (eq_self i) refl

  won :
      (s : World) (candidate : ℕ)
      → ((compare_and_swap i s.last candidate s).issued ≡ candidate ∷ s.issued)
        × ((compare_and_swap i s.last candidate s).workers i ≡ idle)
  unfolding compare_and_swap
  won s candidate = rw (eq_self s.last, eq_self i) (refl, refl)

  from_looping :
      (s : World) (candidate : ℕ)
      → s.workers i ≡ looping candidate
      → let t = step (step s (go i)) (go i) in
        (t.issued ≡ above candidate s.last ∷ s.issued) × (t.workers i ≡ idle)
  from_looping s candidate h =
      let v = above candidate s.last in
      let m = move i s (loaded s.last v) in
      rw (after_looping s candidate h, after_loaded m s.last v (move_worker s (loaded s.last v)))
        (won m v)

  alone : World → World
  alone s = step (step (step s (go i)) (go i)) (go i)

  alone_at_head : (s : World) (candidate : ℕ) → s.workers i ≡ looping candidate → Issued s (alone s)
  unfolding alone
  alone_at_head s candidate h =
      let (issued, rest) = from_looping s candidate h in
      (
        above candidate s.last,
        rw (after_idle (step (step s (go i)) (go i)) rest) issued,
        above_lem candidate s.last,
      )

  first_swap :
      (s : World) (candidate : ℕ)
      → s.workers i ≡ loaded s.last candidate
      → let t = step s (go i) in (t.issued ≡ candidate ∷ s.issued) × (t.workers i ≡ idle)
  first_swap s candidate h = rw (after_loaded s s.last candidate h) (won s candidate)

  lost :
      (s : World) (previous candidate : ℕ)
      → (s.last == previous) ≡ false
      → compare_and_swap i previous candidate s ≡ move i s (looping candidate)
  unfolding compare_and_swap
  lost s previous candidate h = rw h refl

  alone_at_swap :
      (s : World) (previous candidate : ℕ)
      → s.workers i ≡ loaded previous candidate
      → previous < candidate
      → Issued s (alone s)
  unfolding alone
  alone_at_swap s previous candidate h ahead = elim (Bool-cases (s.last == previous)) [
    | inl same ↦
        let e : previous ≡ s.last = ground (arith, same) in
        let (issued, rest) = first_swap s candidate (rw e at h) in
        let t = step s (go i) in
        (candidate, rw (after_idle t rest, after_idle t rest) issued, omega (arith, e, ahead))
    | inr other ↦
        let m = move i s (looping candidate) in
        let first = after_loaded s previous candidate h ∙ lost s previous candidate other in
        let (issued, rest) = from_looping m candidate (move_worker s (looping candidate)) in
        (above candidate s.last, rw first issued, above_lem candidate s.last)
  ]

  alone_anywhere :
      (s : World) (w : Worker) → s.workers i ≡ w → Ahead w → IsBusy w → Issued s (alone s)
  alone_anywhere s idle h ahead busy = absurd busy
  alone_anywhere s (looping candidate) h ahead busy = alone_at_head s candidate h
  alone_anywhere s (loaded previous candidate) h ahead busy =
      alone_at_swap s previous candidate h ahead

  run-alone : (s : World) → run s (go i ∷ go i ∷ go i ∷ []) ≡ alone s
  unfolding run alone
  run-alone s = refl

-- However the goroutines interleave and whatever the clock says, also backwards, each version that
-- has been handed out is greater than the ones before it; and whichever goroutine is in the
-- function, three turns of its own with no other in between hand out a version above the last one.
pub versions_rise :
    (es : List Event)
    → let s = run start es in
      Rising s.issued
      × ((i : ℕ) → IsBusy (s.workers i) → Issued s (run s (go i ∷ go i ∷ go i ∷ [])))
versions_rise es =
    let s = run start es in
    let inv = run-Inv start es start-Inv in
    (
      FallFrom-Rising (s.last + 1) s.issued inv.rising,
      λ i busy. rw (run-alone i s) (alone_anywhere i s (s.workers i) refl (inv.ahead i) busy),
    )
