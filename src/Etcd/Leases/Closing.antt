-- ===== src/Etcd/Leases/Closing.antt =====
-- What Deregister and Close leave of the loops.
use dilu_go_kit.Base.{
  ℕ, List, [], ◌∷◌, Option, none, some, Bool, true, ◌||◌, not, All, arith, ◌≡◌, refl,
}
use dilu_go_kit.Base.Text.{Text, beq, beq_iff}
use dilu_go_kit.Base.Dict.{lookup, lookup-remove}
use dilu_go_kit.Etcd.Leases.{
  Thread, World, Event, deregister, close, is_in, step, run, new_registry,
}
use dilu_go_kit.Etcd.Leases.Steps.{loop_of, any_cancels, Reachable, Inv}
use dilu_go_kit.Etcd.Leases.Loops.{run-Inv, step-Inv}

-- A context that is cancelled, or that a Register in flight is about to cancel.
abbrev pub is_stopped : World → ℕ → Bool
is_stopped w c = is_in c w.cancelled || any_cancels c w.threads

-- No loop of the instances goes on.
abbrev stops : World → (Text → Bool) → Option (Text × ℕ) → Bool
stops w which none = true
stops w which (some (id, c)) = not (which id) || is_stopped w c

abbrev pub Stops : World → (Text → Bool) → Type 0
Stops w which = All (λ t. stops w which (loop_of t) ≡ true) w.threads

unrecorded :
    (w : World) (which : Text → Bool) (o : Option (Text × ℕ))
    → ((id : Text) → which id ≡ true → lookup id w.cancels ≡ none)
    → Reachable w w.threads o
    → stops w which o ≡ true
unrecorded w which none gone h = refl
unrecorded w which (some (id, c)) gone h = ground (arith, h, gone id)

all_unrecorded :
    (w : World) (which : Text → Bool) (ts : List Thread)
    → ((id : Text) → which id ≡ true → lookup id w.cancels ≡ none)
    → All (λ t. Reachable w w.threads (loop_of t)) ts
    → All (λ t. stops w which (loop_of t) ≡ true) ts
all_unrecorded w which [] gone h = tt
all_unrecorded w which (t ∷ ts) gone (h, hs) =
    (unrecorded w which (loop_of t) gone h, all_unrecorded w which ts gone hs)

removed :
    (w : World) (key id i : Text)
    → beq i id ≡ true
    → lookup i (step w (deregister key id)).cancels ≡ none
unfolding step
removed w key id i h = ground (arith, lookup-remove id i w.cancels, beq_iff i id, beq_iff id i, h)

cleared : (w : World) (i : Text) → lookup i (step w close).cancels ≡ none
unfolding step lookup
cleared w i = refl

-- Whatever calls of Register, Deregister and Close have run in whatever interleaving, with calls of
-- etcd that succeed, fail, or fail after they took effect, and with leases that expire: the loop
-- of every lease that is kept alive has a context that is cancelled, that a Register in flight is
-- about to cancel, or that the registry has on record for its instance. So once Deregister has had
-- the mutex, the loops of its instance are cancelled or about to be, and once Close has, all are.
pub loops_stop :
    (es : List Event) (key id : Text)
    → Inv (run new_registry es)
      × Stops (step (run new_registry es) (deregister key id)) (λ i. beq i id)
      × Stops (step (run new_registry es) close) (λ i. true)
loops_stop es key id =
    let w = run new_registry es in
    let inv = run-Inv new_registry es tt in
    let v = step w (deregister key id) in
    let u = step w close in
    (
      inv,
      all_unrecorded v (λ i. beq i id) v.threads (removed w key id)
          (step-Inv w (deregister key id) inv),
      all_unrecorded u (λ i. true) u.threads (λ i h. cleared w i) (step-Inv w close inv),
    )
