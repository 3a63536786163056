-- ===== src/Boot/Components/Fuel.antt =====
-- The recursion of `visit` is never cut off: each level of it marks one more component.
use dilu_go_kit.Base.{
  ℕ, zero, suc, ◌+◌, ◌≤◌, ◌<◌, ◌≡◌, ◌≢◌, inl, inr, List, [], ◌∷◌, ◌++◌, Option, none, some, Bool,
  true, false, if◌then◌else◌, length, arith, Bool-cases, Option-cases, All,
}
use dilu_go_kit.Base.Text.{Text, beq, beq_iff, trim_space}
use dilu_go_kit.Base.Text.Sorting.{has}
use dilu_go_kit.Base.Dict.{lookup, insert, lookup-insert}
use dilu_go_kit.Base.Result.{Result, ok, err, >>=-eq-ok, >>=-eq-err, ok_inj}
use dilu_go_kit.Boot.Components.{
  Error, Component, out_of_fuel, Mark, visiting, done, Progress, Table, visit_all, visit,
  visit_each, order_components, by_name_from, enter, leave,
}
use dilu_go_kit.Boot.Components.Sound.{has-Occurs, lookup-Occurs}
use dilu_go_kit.Boot.Components.Ordering.{names}

abbrev is_new : Option Mark → Bool
is_new none = true
is_new (some m) = false

-- How many of the names have no mark yet.
abbrev unmarked : List Text → List (Text × Mark) → ℕ
unmarked [] m = 0
unmarked (k ∷ ks) m = (if is_new (lookup k m) then 1 else 0) + unmarked ks m

-- Marks stay.
abbrev Grows : List (Text × Mark) → List (Text × Mark) → Type 0
Grows m m' = (n : Text) → is_new (lookup n m) ≡ false → is_new (lookup n m') ≡ false

unmarked-Grows :
    (ks : List Text) (m m' : List (Text × Mark)) → Grows m m' → unmarked ks m' ≤ unmarked ks m
unmarked-Grows [] m m' g = omega arith
unmarked-Grows (k ∷ ks) m m' g = ground (arith, g k, unmarked-Grows ks m m' g)

insert-Grows : (n : Text) (x : Mark) (m : List (Text × Mark)) → Grows m (insert n x m)
insert-Grows n x m j h = ground (arith, h, lookup-insert n j x m)

-- Marking a new name of the list leaves fewer.
unmarked-insert :
    (ks : List Text) (n : Text) (x : Mark) (m : List (Text × Mark))
    → has n ks ≡ true
    → lookup n m ≡ none
    → unmarked ks (insert n x m) < unmarked ks m
unmarked-insert [] n x m h e = cc
unmarked-insert (k ∷ ks) n x m h e = ground (
  arith,
  unmarked-insert ks n x m,
  unmarked-Grows ks m (insert n x m) (insert-Grows n x m),
  lookup-insert n k x m,
  beq_iff k n,
  beq_iff n k,
)

abbrev Call : Type 0
Call = Component → List Text → Progress → Result Error Progress

abbrev GrowsCall : Call → Type 0
GrowsCall call =
    (c : Component) (path : List Text) (p q : Progress)
    → call c path p ≡ ok q
    → Grows p.state q.state

module _ (table : Table) where
  visit_all-Grows :
      (call : Call)
      → GrowsCall call
      → (name : Text) (path ds : List Text) (p q : Progress)
      → visit_all call table name path ds p ≡ ok q
      → Grows p.state q.state
  unfolding visit_all
  visit_all-Grows call g name path [] p q e n h = ground (arith, h, e)
  visit_all-Grows call g name path (d ∷ ds) p q e n h = elim (Bool-cases (beq (trim_space d) [])) [
    | inl blank ↦ visit_all-Grows call g name path ds p q (rw blank at e) n h
    | inr dep ↦ elim (Option-cases (lookup (trim_space d) table)) [
      | inl absent ↦ cc (rw (dep, absent) at e)
      | inr (c, found) ↦
          let (q1, called, rest) =
            >>=-eq-ok (λ r. visit_all call table name path ds r) (call c (path ++ name ∷ []) p)
              (rw (dep, found) at e) in
          visit_all-Grows call g name path ds q1 q rest n (g c (path ++ name ∷ []) p q1 called n h)
    ]
  ]

  visit-Grows : (fuel : ℕ) → GrowsCall (visit fuel table)
  unfolding visit
  visit-Grows zero c path p q e n h = cc
  visit-Grows (suc fuel) c path p q e n h = elim (Option-cases (lookup c.name p.state)) [
    | inl new ↦
        let (q1, inner, last) =
          >>=-eq-ok (λ r. ok (leave c r))
            (visit_all (visit fuel table) table c.name path c.depends_on (enter c p))
            (rw (new, visit) at e) in
        let grown =
          visit_all-Grows (visit fuel table) (visit-Grows fuel) c.name path c.depends_on (enter c p)
            q1 inner n (insert-Grows c.name visiting p.state n h) in
        let end = insert-Grows c.name done q1.state n grown in ground (arith, end, ok_inj last)
    | inr (visiting, busy) ↦ cc (rw (busy, visit) at e)
    | inr (done, over) ↦ ground (arith, h, ok_inj (rw (over, visit) at e))
  ]

  module _ (ks : List Text)
      (inside : (d : Text) (c : Component) → lookup d table ≡ some c → has c.name ks ≡ true) where
    abbrev Enough : ℕ → Call → Type 0
    Enough k call =
        (c : Component) (path : List Text) (p : Progress)
        → has c.name ks ≡ true
        → unmarked ks p.state < k
        → call c path p ≢ err out_of_fuel

    visit_all-Enough :
        (k : ℕ) (call : Call)
        → Enough k call
        → GrowsCall call
        → (name : Text) (path ds : List Text) (p : Progress) → unmarked ks p.state < k
        → visit_all call table name path ds p ≢ err out_of_fuel
    unfolding visit_all
    visit_all-Enough k call en g name path [] p room e = cc
    visit_all-Enough k call en g name path (d ∷ ds) p room e =
        elim (Bool-cases (beq (trim_space d) [])) [
          | inl blank ↦ visit_all-Enough k call en g name path ds p room (rw blank at e)
          | inr dep ↦ elim (Option-cases (lookup (trim_space d) table)) [
            | inl absent ↦ cc (rw (dep, absent) at e)
            | inr (c, found) ↦
                elim (>>=-eq-err (λ r. visit_all call table name path ds r)
                  (call c (path ++ name ∷ []) p) (rw (dep, found) at e)) [
                    | inl here ↦
                        en c (path ++ name ∷ []) p (inside (trim_space d) c found) room here
                    | inr (q, called, rest) ↦
                        visit_all-Enough k call en g name path ds q
                          (omega (
                            arith,
                            unmarked-Grows ks p.state q.state (g c (path ++ name ∷ []) p q called),
                          ))
                          rest
                  ]
          ]
        ]

    visit-Enough : (fuel : ℕ) → Enough fuel (visit fuel table)
    unfolding visit
    visit-Enough zero c path p h room e = absurd (omega arith)
    visit-Enough (suc fuel) c path p h room e = elim (Option-cases (lookup c.name p.state)) [
      | inl new ↦
          elim (>>=-eq-err (λ r. ok (leave c r))
            (visit_all (visit fuel table) table c.name path c.depends_on (enter c p))
            (rw (new, visit) at e)) [
              | inl here ↦
                  visit_all-Enough fuel (visit fuel table) (visit-Enough fuel) (visit-Grows fuel)
                    c.name path c.depends_on (enter c p)
                    (omega (arith, unmarked-insert ks c.name visiting p.state h new)) here
              | inr (q, inner, last) ↦ cc
            ]
      | inr (visiting, busy) ↦ cc (rw (busy, visit) at e)
      | inr (done, over) ↦ cc (rw (over, visit) at e)
    ]

    visit_each-Enough :
        (fuel : ℕ) (cs : List Component) (p : Progress)
        → All (λ c. has c.name ks ≡ true) cs
        → unmarked ks p.state < fuel
        → visit_each fuel table cs p ≢ err out_of_fuel
    unfolding visit_each
    visit_each-Enough fuel [] p h room e = cc
    visit_each-Enough fuel (c ∷ cs) p h room e =
        elim (>>=-eq-err (λ s. visit_each fuel table cs s) (visit fuel table c [] p) e) [
          | inl here ↦ visit-Enough fuel c [] p h.0 room here
          | inr (q, called, rest) ↦
              visit_each-Enough fuel cs q h.1
                (omega
                  (arith, unmarked-Grows ks p.state q.state (visit-Grows fuel c [] p q called)))
                rest
        ]

unmarked-le-length :
    (cs : List Component) (m : List (Text × Mark)) → unmarked (names cs) m ≤ length cs
unmarked-le-length [] m = omega arith
unmarked-le-length (c ∷ cs) m = ground (arith, unmarked-le-length cs m)

All-names :
    (ks : List Text) (cs : List Component)
    → ((n : Text) → has n (names cs) ≡ true → has n ks ≡ true)
    → All (λ c. has c.name ks ≡ true) cs
All-names ks [] f = tt
All-names ks (c ∷ cs) f = (
  f c.name (ground (arith, beq_iff c.name c.name)),
  All-names ks cs (λ n h. f n (ground (arith, h))),
)

-- orderComponents ends on every list of components, with equal names, unknown dependencies and
-- cycles included: the fuel of one level more than there are components is never used up.
pub order_components_total : (cs : List Component) → order_components cs ≢ err out_of_fuel
unfolding order_components
order_components_total cs e =
    let table = by_name_from [] cs in
    let start : Progress = record { state = []; ordered = [] } in
    elim (>>=-eq-err (λ p. ok p.ordered) (visit_each (length cs + 1) table cs start) e) [
      | inl here ↦
          visit_each-Enough table (names cs) (λ d c f. has-Occurs c cs (lookup-Occurs d cs c f))
            (length cs + 1) cs start (All-names (names cs) cs (λ n h. h))
            (omega (arith, unmarked-le-length cs start.state)) here
      | inr (q, called, rest) ↦ cc
    ]
