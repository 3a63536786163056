-- ===== src/Etcd/Leases/Steps.antt =====
-- Which loops the registry can still cancel, and what one step of a thread does to that.
use dilu_go_kit.Base.{
  ℕ, List, [], ◌∷◌, ◌++◌, Option, none, some, Bool, true, false, ◌&&◌, ◌||◌, not, ◌==◌, if_cases,
  All, arith, ◌≡◌, refl, ◌⊎◌, inl, inr,
}
use dilu_go_kit.Base.Text.{Text, beq_iff}
use dilu_go_kit.Base.Dict.{lookup, lookup-insert}
use dilu_go_kit.Etcd.Leases.{
  Thread, granted, stored, replaced, replacing, alive, renewing, regranted, restored, undoing,
  deleting, revoking, World, Outcome, fine, failed, applied, is_in, when, succeeds, revoke, put,
  advance, is_current, record_lease,
}

-- The context of the loop that a thread runs or is about to start, with its instance.
abbrev pub loop_of : Thread → Option (Text × ℕ)
loop_of (replaced key id l c old_c old_l) = some (id, c)
loop_of (replacing key id l c old_l) = some (id, c)
loop_of (alive key id l c) = some (id, c)
loop_of (renewing key id l c) = some (id, c)
loop_of (regranted key id l c l') = some (id, c)
loop_of (restored key id l c l') = some (id, c)
loop_of (undoing key id l c l') = some (id, c)
loop_of _ = none

-- A Register that is about to cancel this context.
abbrev pub is_same : ℕ → Option ℕ → Bool
is_same c none = false
is_same c (some d) = d == c

abbrev pub cancels_next : ℕ → Thread → Bool
cancels_next c (replaced key id l d old_c old_l) = is_same c old_c
cancels_next c _ = false

abbrev pub any_cancels : ℕ → List Thread → Bool
any_cancels c [] = false
any_cancels c (t ∷ ts) = cancels_next c t || any_cancels c ts

abbrev pub in_reach : World → List Thread → Text → ℕ → Bool
in_reach w ts id c = is_in c w.cancelled || any_cancels c ts || is_same c (lookup id w.cancels)

abbrev pub Reachable : World → List Thread → Option (Text × ℕ) → Type 0
Reachable w ts none = Unit {0}
Reachable w ts (some (id, c)) = in_reach w ts id c ≡ true

-- Every loop has been cancelled, is about to be, or is the one that the registry would cancel.
abbrev pub Inv : World → Type 0
Inv w = All (λ t. Reachable w w.threads (loop_of t)) w.threads

put_books :
    (key : Text) (l : ℕ) (o : Outcome) (w : World)
    → ((when o (put key l) w).cancelled ≡ w.cancelled)
      × ((when o (put key l) w).cancels ≡ w.cancels)
unfolding put
put_books key l fine w = ground arith
put_books key l applied w = ground arith
put_books key l failed w = (refl, refl)

pub revoke_books :
    (l : ℕ) (o : Outcome) (w : World)
    → ((when o (revoke l) w).cancelled ≡ w.cancelled) × ((when o (revoke l) w).cancels ≡ w.cancels)
unfolding revoke
revoke_books l fine w = (refl, refl)
revoke_books l applied w = (refl, refl)
revoke_books l failed w = (refl, refl)

pub any_cancels-append :
    (c : ℕ) (xs ys : List Thread)
    → any_cancels c (xs ++ ys) ≡ (any_cancels c xs || any_cancels c ys)
any_cancels-append c [] ys = refl
any_cancels-append c (x ∷ xs) ys = ground (arith, any_cancels-append c xs ys)

-- What a step leaves in reach.
abbrev pub Keeps : World → List Thread → World → List Thread → Type 0
Keeps w ts v us = (id : Text) (c : ℕ) → in_reach w ts id c ≡ true → in_reach v us id c ≡ true

pub same_books :
    (w v : World) (t : Thread) (ts others : List Thread)
    → v.cancelled ≡ w.cancelled
    → v.cancels ≡ w.cancels
    → ((c : ℕ) → cancels_next c t ≡ false)
    → Keeps w (t ∷ others) v (ts ++ others)
same_books w v t ts others e f quiet id c h =
    ground (arith, e, f, quiet c, h, any_cancels-append c ts others)

-- Only two steps of Register change which contexts there are.
abbrev is_quiet : Thread → Bool
is_quiet (stored key id l) = false
is_quiet (replaced key id l c old_c old_l) = false
is_quiet _ = true

quiet_books :
    (t : Thread) (o : Outcome) (w : World)
    → is_quiet t ≡ true
    → ((advance t o w).0.cancelled ≡ w.cancelled) × ((advance t o w).0.cancels ≡ w.cancels)
unfolding advance
quiet_books (granted key id l) o w h = put_books key l o w
quiet_books (stored key id l) o w h = cc
quiet_books (replaced key id l c old_c old_l) o w h = cc
quiet_books (replacing key id l c none) o w h = (refl, refl)
quiet_books (replacing key id l c (some old)) o w h = revoke_books old o w
quiet_books (alive key id l c) o w h = (refl, refl)
quiet_books (renewing key id l c) o w h = (ground arith, ground arith)
quiet_books (regranted key id l c l') o w h = put_books key l' o w
quiet_books (restored key id l c l') o w h = (refl, refl)
quiet_books (undoing key id l c l') o w h = revoke_books l' o w
quiet_books (deleting key l) fine w h = (refl, refl)
quiet_books (deleting key l) applied w h = (refl, refl)
quiet_books (deleting key l) failed w h = (refl, refl)
quiet_books (revoking []) o w h = (refl, refl)
quiet_books (revoking (l ∷ ls)) o w h = revoke_books l o w

quiet_cancels : (t : Thread) (c : ℕ) → is_quiet t ≡ true → cancels_next c t ≡ false
quiet_cancels (replaced key id l d old_c old_l) c h = cc
quiet_cancels t c h = refl

quiet-Keeps :
    (t : Thread) (o : Outcome) (w : World) (others : List Thread)
    → is_quiet t ≡ true
    → Keeps w (t ∷ others) (advance t o w).0 ((advance t o w).1 ++ others)
quiet-Keeps t o w others h =
    let (e, f) = quiet_books t o w h in
    same_books w (advance t o w).0 t (advance t o w).1 others e f (λ c. quiet_cancels t c h)

-- The new context of Register is the one on record, and the old one is about to be cancelled.
stored-Keeps :
    (key id : Text) (l : ℕ) (o : Outcome) (w : World) (others : List Thread)
    → Keeps w
        (stored key id l ∷ others)
        (advance (stored key id l) o w).0
        ((advance (stored key id l) o w).1 ++ others)
unfolding advance
stored-Keeps key id l o w others i c h =
    ground (arith, h, lookup-insert id i w.next w.cancels, beq_iff id i)

replaced-Keeps :
    (key id : Text) (l d : ℕ) (old_c old_l : Option ℕ) (o : Outcome) (w : World)
    (others : List Thread)
    → Keeps w
        (replaced key id l d old_c old_l ∷ others)
        (advance (replaced key id l d old_c old_l) o w).0
        ((advance (replaced key id l d old_c old_l) o w).1 ++ others)
unfolding advance
replaced-Keeps key id l d none old_l o w others i c h = h
replaced-Keeps key id l d (some old) old_l o w others i c h = ground (arith, h)

pub advance-Keeps :
    (t : Thread) (o : Outcome) (w : World) (others : List Thread)
    → Keeps w (t ∷ others) (advance t o w).0 ((advance t o w).1 ++ others)
advance-Keeps (stored key id l) o w others = stored-Keeps key id l o w others
advance-Keeps (replaced key id l c old_c old_l) o w others =
    replaced-Keeps key id l c old_c old_l o w others
advance-Keeps t o w others = quiet-Keeps t o w others refl

-- A thread that a step leaves behind runs no loop, the same one, or the one that Register starts.
abbrev pub Follows : World → Option (Text × ℕ) → Thread → Type 0
Follows w before s =
    (loop_of s ≡ none)
    ⊎ (loop_of s ≡ before)
    ⊎ ((id : Text) × (c : ℕ) × (loop_of s ≡ some (id, c))
        × (is_same c (lookup id w.cancels) ≡ true))

pub advance-Follows :
    (t : Thread) (o : Outcome) (w : World)
    → All (Follows (advance t o w).0 (loop_of t)) (advance t o w).1
unfolding advance
advance-Follows (granted key id l) o w =
    if_cases {A = List Thread} (All (Follows (when o (put key l) w) none))
      (succeeds o && not (is_in l w.ended)) (λ h. (inl refl, tt)) (λ h. (inl refl, tt))
advance-Follows (stored key id l) o w = (
  inr (inr (id, w.next, refl, ground (arith, lookup-insert id id w.next w.cancels, beq_iff id id))),
  tt,
)
advance-Follows (replaced key id l c old_c old_l) o w = (inr (inl refl), tt)
advance-Follows (replacing key id l c none) o w = (inr (inl refl), tt)
advance-Follows (replacing key id l c (some old)) o w = (inr (inl refl), tt)
advance-Follows (alive key id l c) o w =
    if_cases {A = List Thread} (All (Follows w (some (id, c)))) (is_in c w.cancelled) (λ h. tt)
      (λ h. (inr (inl refl), tt))
advance-Follows (renewing key id l c) o w =
    if_cases {A = World × List Thread} (λ p. All (Follows p.0 (some (id, c))) p.1)
      (is_in c w.cancelled) (λ h. tt)
      (λ h.
        if_cases {A = World × List Thread} (λ p. All (Follows p.0 (some (id, c))) p.1) (succeeds o)
          (λ k. (inr (inl refl), tt)) (λ k. (inr (inl refl), tt)))
advance-Follows (regranted key id l c l') o w =
    if_cases {A = List Thread} (All (Follows (when o (put key l') w) (some (id, c))))
      (succeeds o && not (is_in l' w.ended)) (λ h. (inr (inl refl), tt)) (λ h. (inr (inl refl), tt))
advance-Follows (restored key id l c l') o w =
    if_cases {A = List Thread}
      (All (Follows (record w { leases = record_lease id l l' w.leases }) (some (id, c))))
      (is_current l (lookup id w.leases)) (λ h. (inr (inl refl), tt)) (λ h. (inl refl, tt))
advance-Follows (undoing key id l c l') o w = (inr (inl refl), tt)
advance-Follows (deleting key l) o w = (inl refl, tt)
advance-Follows (revoking []) o w = tt
advance-Follows (revoking (l ∷ ls)) o w = (inl refl, tt)
