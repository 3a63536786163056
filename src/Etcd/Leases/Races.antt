-- ===== src/Etcd/Leases/Races.antt =====
-- Register, alone and against the loop that it replaces.
use dilu_go_kit.Base.{
  ℕ, suc, List, [], ◌∷◌, Option, none, some, false, ◌==◌, if◌then◌else◌, arith, ◌≡◌, refl, ap, ◌∙◌,
}
use dilu_go_kit.Base.Text.{Text, beq_iff}
use dilu_go_kit.Base.Text.Sorting.{IsDistinct}
use dilu_go_kit.Base.Dict.{lookup, insert, keys, lookup-insert, insert-IsDistinct, lookup_absent}
use dilu_go_kit.Etcd.Leases.{
  Thread, stored, replaced, alive, regranted, World, fine, Event, register, move, is_in, add,
  detach, revoke, put, advance, is_current, move_thread, step, run,
}

lookup-detach :
    (k : Text) (l : ℕ) (m : List (Text × ℕ))
    → IsDistinct (keys m)
    → lookup k (detach l m) ≡ (if is_current l (lookup k m) then none else lookup k m)
unfolding lookup detach
lookup-detach k l [] d = refl
lookup-detach k l ((j, n) ∷ m) (d, ds) =
    ground (arith, lookup-detach k l m ds, d, lookup_absent k m, beq_iff j k)

abbrev detach_old : Option ℕ → List (Text × ℕ) → List (Text × ℕ)
detach_old none store = store
detach_old (some l) store = detach l store

-- The last two steps of Register.
finishing :
    (w : World) (key id : Text) (l c : ℕ) (old_c old_l : Option ℕ) (others : List Thread)
    → w.threads ≡ replaced key id l c old_c old_l ∷ others
    → run w (move 0 fine ∷ move 0 fine ∷ []) ≡ record w {
      cancelled = add old_c w.cancelled;
      store = detach_old old_l w.store;
      ended = add old_l w.ended;
      threads = alive key id l c ∷ others;
    }
unfolding run step move_thread advance revoke
finishing w key id l c old_c none others e = rw e refl
finishing w key id l c old_c (some old) others e = rw e refl

-- What Register has done when it has the mutex.
taken : World → (key id : Text) → ℕ → List (Text × ℕ) → List Thread → World
taken w key id l store others = record w {
  leases = insert id l w.leases;
  cancels = insert id w.next w.cancels;
  store = store;
  next = suc w.next;
  threads = replaced key id l w.next (lookup id w.cancels) (lookup id w.leases) ∷ others;
}

opening :
    (w : World) (key id : Text)
    → is_in w.next w.ended ≡ false
    → run w (register key id ∷ move 0 fine ∷ move 0 fine ∷ [])
      ≡ taken (record w { next = suc w.next }) key id w.next (insert key w.next w.store) w.threads
unfolding run step move_thread advance put taken
opening w key id fresh = rw fresh refl

whole :
    (w : World) (key id : Text)
    → is_in w.next w.ended ≡ false
    → run w (register key id ∷ move 0 fine ∷ move 0 fine ∷ move 0 fine ∷ move 0 fine ∷ [])
      ≡ record w {
        leases = insert id w.next w.leases;
        cancels = insert id (suc w.next) w.cancels;
        cancelled = add (lookup id w.cancels) w.cancelled;
        store = detach_old (lookup id w.leases) (insert key w.next w.store);
        ended = add (lookup id w.leases) w.ended;
        next = suc (suc w.next);
        threads = alive key id w.next (suc w.next) ∷ w.threads;
      }
unfolding run taken
whole w key id fresh =
    let v =
      taken (record w { next = suc w.next }) key id w.next (insert key w.next w.store) w.threads in
    ap (λ u. run u (move 0 fine ∷ move 0 fine ∷ [])) (opening w key id fresh)
    ∙ finishing v key id w.next (suc w.next) (lookup id w.cancels) (lookup id w.leases) w.threads
        refl

kept_key :
    (key : Text) (l : ℕ) (old : Option ℕ) (store : List (Text × ℕ))
    → IsDistinct (keys store)
    → is_current l old ≡ false
    → lookup key (detach_old old (insert key l store)) ≡ some l
kept_key key l none store d other = ground (arith, lookup-insert key key l store, beq_iff key key)
kept_key key l (some old) store d other = ground (
  arith,
  lookup-detach key old (insert key l store) (insert-IsDistinct key l store d),
  lookup-insert key key l store,
  beq_iff key key,
  other,
)

abbrev pub registering : (key id : Text) → List Event
registering key id = register key id ∷ move 0 fine ∷ move 0 fine ∷ move 0 fine ∷ move 0 fine ∷ []

-- A Register that nothing comes between, and whose calls of etcd succeed. Its lease is one that etcd has not
-- ended and that is not the one on record. It has stored the key under its lease, where it stays
-- when the lease it replaces is revoked, the lease and the context are on record, the former
-- context is cancelled, the former lease has ended, and one more loop runs, for the new lease.
pub register_alone :
    (w : World) (key id : Text)
    → is_in w.next w.ended ≡ false
    → is_current w.next (lookup id w.leases) ≡ false
    → IsDistinct (keys w.store)
    → let v = run w (registering key id) in
      (lookup key v.store ≡ some w.next)
      × (lookup id v.leases ≡ some w.next)
      × (lookup id v.cancels ≡ some (suc w.next))
      × (v.cancelled ≡ add (lookup id w.cancels) w.cancelled)
      × (v.ended ≡ add (lookup id w.leases) w.ended)
      × (v.threads ≡ alive key id w.next (suc w.next) ∷ w.threads)
register_alone w key id fresh other d =
    let e = whole w key id fresh in
    let self = (beq_iff id id).1 refl in
    (
      ap (λ (v : World). lookup key v.store) e
          ∙ kept_key key w.next (lookup id w.leases) w.store d other,
      ap (λ (v : World). lookup id v.leases) e
          ∙ ground (arith, lookup-insert id id w.next w.leases, self),
      ap (λ (v : World). lookup id v.cancels) e
          ∙ ground (arith, lookup-insert id id (suc w.next) w.cancels, self),
      ap (λ (v : World). v.cancelled) e,
      ap (λ (v : World). v.ended) e,
      ap (λ (v : World). v.threads) e,
    )

absent-detach :
    (k : Text) (l : ℕ) (m : List (Text × ℕ)) → lookup k m ≡ none → lookup k (detach l m) ≡ none
unfolding lookup detach
absent-detach k l [] h = refl
absent-detach k l ((j, n) ∷ m) h = ground (arith, absent-detach k l m, h)

revoked_key :
    (key : Text) (l : ℕ) (store : List (Text × ℕ))
    → IsDistinct (keys store)
    → lookup key (detach l (insert key l store)) ≡ none
revoked_key key l store d =
    lookup-detach key l (insert key l store) (insert-IsDistinct key l store d)
    ∙ ground (arith, lookup-insert key key l store, beq_iff key key)

lost_key :
    (key : Text) (l : ℕ) (old : Option ℕ) (store : List (Text × ℕ))
    → IsDistinct (keys store)
    → lookup key (detach_old old (detach l (insert key l store))) ≡ none
lost_key key l none store d = revoked_key key l store d
lost_key key l (some old) store d =
    absent-detach key old (detach l (insert key l store)) (revoked_key key l store d)

abbrev pub crossing : List Event
crossing =
    move 1 fine
    ∷ move 1 fine
    ∷ move 1 fine
    ∷ move 0 fine
    ∷ move 0 fine
    ∷ move 0 fine
    ∷ move 0 fine
    ∷ []

-- The steps up to the mutex, and those of the loop that finds that it has been replaced.
overtaken :
    (w : World) (key id : Text) (l c l' new : ℕ) (others : List Thread)
    → is_in l' w.ended ≡ false
    → (new == l) ≡ false
    → run
        (record w { threads = stored key id new ∷ regranted key id l c l' ∷ others })
        (move 1 fine ∷ move 1 fine ∷ move 1 fine ∷ move 0 fine ∷ move 0 fine ∷ [])
      ≡ taken
          (record w { ended = l' ∷ w.ended })
          key
          id
          new
          (detach l' (insert key l' w.store))
          others
unfolding run step move_thread advance put taken revoke
overtaken w key id l c l' new others fresh other =
    let found : lookup id (insert id new w.leases) ≡ some new =
      ground (arith, lookup-insert id id new w.leases, beq_iff id id) in
    rw fresh (rw found (rw other refl))

-- A Register that has stored its key crosses a loop of the same instance that has a new lease, as
-- after an interruption. The loop stores the key too, Register gets the mutex first, and the loop,
-- which finds that it has been replaced, revokes its lease. No call of etcd fails, and Register
-- returns with its lease on record and a loop that keeps it alive, but etcd has the key no more.
pub register_loses_key :
    (w : World) (key id : Text) (l c l' new : ℕ) (others : List Thread)
    → w.threads ≡ stored key id new ∷ regranted key id l c l' ∷ others
    → is_in l' w.ended ≡ false
    → (new == l) ≡ false
    → IsDistinct (keys w.store)
    → let v = run w crossing in
      (v.threads ≡ alive key id new w.next ∷ others)
      × (lookup id v.leases ≡ some new)
      × (lookup key v.store ≡ none)
unfolding run taken
register_loses_key w key id l c l' new others e fresh other d =
    let v =
      taken (record w { ended = l' ∷ w.ended }) key id new (detach l' (insert key l' w.store))
        others in
    let end =
      ap (λ u. run u crossing) (ap (λ (ts : List Thread). record w { threads = ts }) e)
      ∙ ap (λ u. run u (move 0 fine ∷ move 0 fine ∷ []))
          (overtaken w key id l c l' new others fresh other)
      ∙ finishing v key id new w.next (lookup id w.cancels) (lookup id w.leases) others refl in
    (
      ap (λ (u : World). u.threads) end,
      ap (λ (u : World). lookup id u.leases) end
          ∙ ground (arith, lookup-insert id id new w.leases, beq_iff id id),
      ap (λ (u : World). lookup key u.store) end ∙ lost_key key l' (lookup id w.leases) w.store d,
    )
