-- ===== src/Etcd/Leases.antt =====
-- contrib/registry/etcd/registry.go: Register, Deregister, Close and the loops that keep leases alive,
-- in any interleaving. A thread stands between two calls of etcd or sections of the mutex; etcd has
-- the keys with the lease that each is attached to, and the leases that have ended.
pub mod Steps
pub mod Loops
pub mod Closing
pub mod Races
use dilu_go_kit.Base.{
  ℕ, zero, suc, ◌+◌, List, [], ◌∷◌, ◌++◌, Option, none, some, Bool, true, false, ◌&&◌, ◌||◌, not,
  ◌==◌, if◌then◌else◌, map,
}
use dilu_go_kit.Base.Text.{Text}
use dilu_go_kit.Base.Dict.{lookup, insert, remove}

-- Register holds the new lease, then also the context of its loop and what it replaces. A loop has its
-- lease and its context, and for a while a second lease.
pub data Thread : Type 0 where
  granted stored : (key id : Text) (lease : ℕ) → Thread
  replaced : (key id : Text) (lease context : ℕ) (old_context old_lease : Option ℕ) → Thread
  replacing : (key id : Text) (lease context : ℕ) (old_lease : Option ℕ) → Thread
  alive renewing : (key id : Text) (lease context : ℕ) → Thread
  regranted restored undoing : (key id : Text) (lease context new_lease : ℕ) → Thread
  deleting : (key : Text) (lease : Option ℕ) → Thread
  revoking : (leases : List ℕ) → Thread

pub record World : Type 0 where
  pub leases : List (Text × ℕ)
  pub cancels : List (Text × ℕ)
  pub cancelled : List ℕ
  pub store : List (Text × ℕ)
  pub ended : List ℕ
  pub next : ℕ
  pub threads : List Thread

-- How a call of etcd ends: an error can come after the write was made.
pub data Outcome : Type 0 where
  fine failed applied : Outcome

pub data Event : Type 0 where
  register deregister : (key id : Text) → Event
  close : Event
  move : ℕ → Outcome → Event
  expire : (lease : ℕ) → Event

abbrev pub is_in : ℕ → List ℕ → Bool
is_in n [] = false
is_in n (m ∷ ms) = m == n || is_in n ms

abbrev pub values : List (Text × ℕ) → List ℕ
values [] = []
values ((k, n) ∷ m) = n ∷ values m

abbrev pub add : Option ℕ → List ℕ → List ℕ
add none ns = ns
add (some n) ns = n ∷ ns

-- The keys that go with a lease.
unfoldable pub detach : ℕ → List (Text × ℕ) → List (Text × ℕ)
detach lease [] = []
detach lease ((k, l) ∷ store) =
    let rest = detach lease store in if l == lease then rest else (k, l) ∷ rest

unfoldable pub revoke : ℕ → World → World
unfolding detach
revoke lease w = record w { store = detach lease w.store; ended = lease ∷ w.ended }

-- Put with a lease that has ended is an error.
unfoldable pub put : Text → ℕ → World → World
unfolding insert
put key lease w = if is_in lease w.ended then w else record w { store = insert key lease w.store }

-- A call that takes effect, or not.
abbrev pub when : Outcome → (World → World) → World → World
when fine f w = f w
when applied f w = f w
when failed f w = w

abbrev pub succeeds : Outcome → Bool
succeeds fine = true
succeeds _ = false

abbrev pub is_current : ℕ → Option ℕ → Bool
is_current lease none = false
is_current lease (some l) = l == lease

-- `leases[id] = newLease` where it is still the lease of this loop.
abbrev pub record_lease : Text → ℕ → ℕ → List (Text × ℕ) → List (Text × ℕ)
record_lease id lease new leases =
    if is_current lease (lookup id leases) then insert id new leases else leases

-- What a thread does next, and what is left of it.
unfoldable pub advance : Thread → Outcome → World → World × List Thread
unfolding put revoke lookup insert
advance (granted key id l) o w = (
  when o (put key l) w,
  if succeeds o && not (is_in l w.ended) then stored key id l ∷ [] else revoking (l ∷ []) ∷ [],
)
advance (stored key id l) o w = (
  record w {
    leases = insert id l w.leases;
    cancels = insert id w.next w.cancels;
    next = suc w.next;
  },
  replaced key id l w.next (lookup id w.cancels) (lookup id w.leases) ∷ [],
)
advance (replaced key id l c old_c old_l) o w =
    (record w { cancelled = add old_c w.cancelled }, replacing key id l c old_l ∷ [])
advance (replacing key id l c none) o w = (w, alive key id l c ∷ [])
advance (replacing key id l c (some old)) o w = (when o (revoke old) w, alive key id l c ∷ [])
advance (alive key id l c) o w = (w, if is_in c w.cancelled then [] else renewing key id l c ∷ [])
advance (renewing key id l c) o w =
    if is_in c w.cancelled
    then (w, [])
    else if succeeds o
    then (record w { next = suc w.next }, regranted key id l c w.next ∷ [])
    else (w, renewing key id l c ∷ [])
advance (regranted key id l c l') o w = (
  when o (put key l') w,
  if succeeds o && not (is_in l' w.ended)
      then restored key id l c l' ∷ []
      else undoing key id l c l' ∷ [],
)
advance (undoing key id l c l') o w = (when o (revoke l') w, renewing key id l c ∷ [])
advance (restored key id l c l') o w = (
  record w { leases = record_lease id l l' w.leases },
  if is_current l (lookup id w.leases) then alive key id l' c ∷ [] else revoking (l' ∷ []) ∷ [],
)
advance (deleting key l) o w =
    (when o (λ v. record v { store = remove key v.store }) w, revoking (add l []) ∷ [])
advance (revoking []) o w = (w, [])
advance (revoking (l ∷ ls)) o w = (when o (revoke l) w, revoking ls ∷ [])

abbrev pub thread_at : ℕ → List Thread → Option Thread
thread_at i [] = none
thread_at zero (t ∷ ts) = some t
thread_at (suc i) (t ∷ ts) = thread_at i ts

abbrev pub without : ℕ → List Thread → List Thread
without i [] = []
without zero (t ∷ ts) = ts
without (suc i) (t ∷ ts) = t ∷ without i ts

-- The threads that go on, beside the others.
abbrev pub resume : World × List Thread → List Thread → World
resume p others = record p.0 { threads = p.1 ++ others }

move_thread : Option Thread → Outcome → List Thread → World → World
unfolding advance
move_thread none o others w = w
move_thread (some t) o others w = resume (advance t o w) others

-- Grant that fails changes nothing, and is no step.
unfoldable pub step : World → Event → World
unfolding move_thread revoke
step w (register key id) = record w {
  next = suc w.next;
  threads = granted key id w.next ∷ w.threads;
}
step w (deregister key id) = record w {
  leases = remove id w.leases;
  cancels = remove id w.cancels;
  cancelled = add (lookup id w.cancels) w.cancelled;
  threads = deleting key (lookup id w.leases) ∷ w.threads;
}
step w close = record w {
  leases = [];
  cancels = [];
  cancelled = values w.cancels ++ w.cancelled;
  threads = revoking (values w.leases) ∷ w.threads;
}
step w (move i o) = move_thread (thread_at i w.threads) o (without i w.threads) w
step w (expire lease) = revoke lease w

unfoldable pub run : World → List Event → World
run w [] = w
run w (e ∷ es) = run (step w e) es

-- NewEtcd
abbrev pub new_registry : World
new_registry = record {
  leases = [];
  cancels = [];
  cancelled = [];
  store = [];
  ended = [];
  next = 1;
  threads = [];
}
