-- ===== src/Registry/Resolver.antt =====
-- registry/resolver.go: the selection of an instance from the cached services.
pub mod Rotation
use dilu_go_kit.Base.{
  ℕ, zero, suc, ◌+◌, ◌-◌, ◌%◌, ◌^◌, List, [], ◌∷◌, Option, none, some, if◌then◌else◌, ltb, ◌==◌,
  length, get_elem?,
}
use dilu_go_kit.Registry.{Service}

-- A Random resolver draws a number below the length; the draw is given.
pub data Policy : Type 0 where
  round_robin : Policy
  random : ℕ → Policy

-- `next` is a uint64.
pub record Resolver : Type 0 where
  pub services : List Service
  pub policy : Policy
  pub next : ℕ

pub data Answer : Type 0 where
  no_instances : Answer
  picked : Service → Answer
  index_panic : Answer

abbrev pub pick_at : List Service → Option ℕ → Answer
pick_at ss none = index_panic
pick_at ss (some i) = elim (get_elem? ss i) [ none ↦ index_panic | some s ↦ picked s ]

-- `int(n) % length`, where it is not negative: int(n) is n - 2^64 from 2^63 on, and the remainder of
-- a negative number is negative or 0.
unfoldable pub signed_mod : ℕ → ℕ → Option ℕ
signed_mod n len =
    if ltb n (2 ^ 63) then some (n % len) else if (2 ^ 64 - n) % len == 0 then some 0 else none

abbrev pub chosen : Policy → ℕ → ℕ → Option ℕ
chosen (random draw) n len = some draw
chosen round_robin n len = signed_mod n len

abbrev pub advance : Policy → ℕ → ℕ
advance (random draw) n = n
advance round_robin n = (n + 1) % 2 ^ 64

unfoldable pub answer : Resolver → List Service → Answer
unfolding signed_mod
answer r [] = no_instances
answer r (s ∷ ss) = pick_at (s ∷ ss) (chosen r.policy r.next (length (s ∷ ss)))

abbrev pub moved : Resolver → List Service → Resolver
moved r [] = r
moved r (s ∷ ss) = record r { next = advance r.policy r.next }

-- Resolve
unfoldable pub resolve : Resolver → Resolver × Answer
unfolding answer
resolve r = (moved r r.services, answer r r.services)

-- The answers of that many calls of Resolve in a row, and the resolver after them.
unfoldable pub resolve_many : ℕ → Resolver → Resolver × List Answer
resolve_many zero r = (r, [])
resolve_many (suc n) r = let rest = resolve_many n (resolve r).0 in (rest.0, (resolve r).1 ∷ rest.1)
