-- ===== src/Etcd/Leases/Loops.antt =====
-- The loops that keep leases alive: none is out of reach.
use dilu_go_kit.Base.{
  ℕ, zero, suc, List, [], ◌∷◌, ◌++◌, Option, none, some, true, ◌||◌, All, All-append, subst, arith,
  ◌≡◌, refl, inl, inr,
}
use dilu_go_kit.Base.Text.{Text, beq_iff}
use dilu_go_kit.Base.Dict.{lookup, lookup-remove}
use dilu_go_kit.Etcd.Leases.{
  Thread, World, Outcome, Event, register, deregister, close, move, expire, is_in, values, add,
  revoke, advance, thread_at, without, resume, move_thread, step, run,
}
use dilu_go_kit.Etcd.Leases.Steps.{
  loop_of, is_same, any_cancels, in_reach, Reachable, Inv, Keeps, Follows, advance-Keeps,
  advance-Follows,
}

Keeps-Reachable :
    (w v : World) (ts us : List Thread) (o : Option (Text × ℕ))
    → Keeps w ts v us
    → Reachable w ts o
    → Reachable v us o
Keeps-Reachable w v ts us none keeps h = tt
Keeps-Reachable w v ts us (some (id, c)) keeps h = keeps id c h

Keeps-All :
    (w v : World) (ts us : List Thread) (ss : List Thread)
    → Keeps w ts v us
    → All (λ s. Reachable w ts (loop_of s)) ss
    → All (λ s. Reachable v us (loop_of s)) ss
Keeps-All w v ts us [] keeps h = tt
Keeps-All w v ts us (s ∷ ss) keeps (h, hs) =
    (Keeps-Reachable w v ts us (loop_of s) keeps h, Keeps-All w v ts us ss keeps hs)

on_record :
    (v : World) (us : List Thread) (id : Text) (c : ℕ)
    → is_same c (lookup id v.cancels) ≡ true
    → in_reach v us id c ≡ true
on_record v us id c h = ground (arith, h)

follower :
    (w v : World) (ts us : List Thread) (before : Option (Text × ℕ)) (s : Thread)
    → Keeps w ts v us
    → Reachable w ts before
    → Follows v before s
    → Reachable v us (loop_of s)
follower w v ts us before s keeps known (inl idle) = rw idle tt
follower w v ts us before s keeps known (inr (inl same)) =
    rw same (Keeps-Reachable w v ts us before keeps known)
follower w v ts us before s keeps known (inr (inr (id, c, new, h))) = rw new (on_record v us id c h)

All-Follows :
    (w v : World) (ts us : List Thread) (before : Option (Text × ℕ)) (ss : List Thread)
    → Keeps w ts v us
    → Reachable w ts before
    → All (Follows v before) ss
    → All (λ s. Reachable v us (loop_of s)) ss
All-Follows w v ts us before [] keeps known fs = tt
All-Follows w v ts us before (s ∷ ss) keeps known (f, fs) =
    (follower w v ts us before s keeps known f, All-Follows w v ts us before ss keeps known fs)

split_cancels :
    (c i : ℕ) (ts : List Thread) (t : Thread)
    → thread_at i ts ≡ some t
    → any_cancels c ts ≡ any_cancels c (t ∷ without i ts)
split_cancels c i [] t e = cc
split_cancels c zero (s ∷ ts) t e = ground (arith, e)
split_cancels c (suc i) (s ∷ ts) t e = ground (arith, split_cancels c i ts t e)

split_All {ℓ} :
    (P : Thread → Type ℓ) (i : ℕ) (ts : List Thread) (t : Thread)
    → thread_at i ts ≡ some t
    → All P ts
    → P t × All P (without i ts)
split_All P i [] t e h = cc
split_All P zero (s ∷ ts) t e (h, hs) = let same : s ≡ t = cc in (subst P same h, hs)
split_All P (suc i) (s ∷ ts) t e (h, hs) = let (a, b) = split_All P i ts t e hs in (a, (h, b))

split-Keeps :
    (w : World) (i : ℕ) (t : Thread)
    → thread_at i w.threads ≡ some t
    → Keeps w w.threads w (t ∷ without i w.threads)
split-Keeps w i t e id c h = ground (arith, h, split_cancels c i w.threads t e)

in_values :
    (c : ℕ) (id : Text) (m : List (Text × ℕ))
    → is_same c (lookup id m) ≡ true
    → is_in c (values m) ≡ true
unfolding lookup
in_values c id [] h = cc
in_values c id ((k, d) ∷ m) h = ground (arith, h, in_values c id m)

is_in-append : (c : ℕ) (xs ys : List ℕ) → is_in c (xs ++ ys) ≡ (is_in c xs || is_in c ys)
is_in-append c [] ys = refl
is_in-append c (x ∷ xs) ys = ground (arith, is_in-append c xs ys)

is_in-add : (c : ℕ) (o : Option ℕ) (ns : List ℕ) → is_in c (add o ns) ≡ (is_same c o || is_in c ns)
is_in-add c none ns = refl
is_in-add c (some d) ns = refl

deregister-Keeps :
    (w : World) (key id : Text)
    → Keeps w w.threads (step w (deregister key id)) (step w (deregister key id)).threads
unfolding step
deregister-Keeps w key id i c h = ground (
  arith,
  h,
  is_in-add c (lookup id w.cancels) w.cancelled,
  lookup-remove id i w.cancels,
  beq_iff id i,
)

close-Keeps : (w : World) → Keeps w w.threads (step w close) (step w close).threads
unfolding step lookup
close-Keeps w id c h =
    ground (arith, h, is_in-append c (values w.cancels) w.cancelled, in_values c id w.cancels)

-- Where a step keeps what was in reach, and the threads are those before with new ones that run no
-- loop, the invariant stays.
moved_Inv :
    (w : World) (i : ℕ) (o : Outcome) (found : Option Thread)
    → thread_at i w.threads ≡ found
    → Inv w
    → Inv (move_thread found o (without i w.threads) w)
unfolding move_thread
moved_Inv w i o none e inv = inv
moved_Inv w i o (some t) e inv =
    let others = without i w.threads in
    let (mine, rest) = split_All (λ s. Reachable w w.threads (loop_of s)) i w.threads t e inv in
    let v = resume (advance t o w) others in
    let keeps : Keeps w w.threads v v.threads =
      λ id c h. advance-Keeps t o w others id c (split-Keeps w i t e id c h) in
    All-append (λ s. Reachable v v.threads (loop_of s)) (advance t o w).1 others
      (All-Follows w v w.threads v.threads (loop_of t) (advance t o w).1 keeps mine
        (advance-Follows t o w))
      (Keeps-All w v w.threads v.threads others keeps rest)

pub step-Inv : (w : World) (e : Event) → Inv w → Inv (step w e)
unfolding step revoke
step-Inv w (register key id) inv =
    let v = step w (register key id) in
    (tt, Keeps-All w v w.threads v.threads w.threads (λ i c h. h) inv)
step-Inv w (deregister key id) inv =
    let v = step w (deregister key id) in
    (tt, Keeps-All w v w.threads v.threads w.threads (deregister-Keeps w key id) inv)
step-Inv w close inv =
    let v = step w close in (tt, Keeps-All w v w.threads v.threads w.threads (close-Keeps w) inv)
step-Inv w (move i o) inv = moved_Inv w i o (thread_at i w.threads) refl inv
step-Inv w (expire l) inv = inv

pub run-Inv : (w : World) (es : List Event) → Inv w → Inv (run w es)
unfolding run
run-Inv w [] inv = inv
run-Inv w (e ∷ es) inv = run-Inv (step w e) es (step-Inv w e inv)
