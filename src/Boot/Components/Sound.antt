-- ===== src/Boot/Components/Sound.antt =====
-- The order that orderComponents returns, against the components that it was given.
use dilu_go_kit.Base.{
  ℕ, ◌+◌, ◌≡◌, refl, sym, subst, ◌⊎◌, inl, List, [], ◌∷◌, some, Bool, true, false, length, All,
  arith,
}
use dilu_go_kit.Base.Text.{Text, beq_iff}
use dilu_go_kit.Base.Text.Sorting.{has, IsDistinct}
use dilu_go_kit.Base.Dict.{lookup, insert, lookup-insert}
use dilu_go_kit.Base.Result.{ok, >>=-eq-ok, ok_inj}
use dilu_go_kit.Boot.Components.{
  Component, Progress, Table, by_name_from, visit, visit_each, order_components,
}
use dilu_go_kit.Boot.Components.Ordering.{
  names, IsOrdered, Named, Inv, Keeps, Keeps-refl, Keeps-trans, visit-After,
}

-- The component is one of the list.
abbrev pub Occurs : Component → List Component → Type 0
Occurs c [] = ⊥
Occurs c (x ∷ xs) = (x ≡ c) ⊎ Occurs c xs

lookup-by_name :
    (n : Text) (m : Table) (cs : List Component) (c : Component)
    → lookup n (by_name_from m cs) ≡ some c
    → (lookup n m ≡ some c) ⊎ (Occurs c cs × (c.name ≡ n))
unfolding by_name_from
lookup-by_name n m [] c h = inl h
lookup-by_name n m (x ∷ cs) c h = ground (
  arith,
  lookup-by_name n (insert x.name x m) cs c h,
  lookup-insert x.name n x m,
  beq_iff x.name n,
)

lookup-by_name_other :
    (n : Text) (m : Table) (cs : List Component)
    → has n (names cs) ≡ false
    → lookup n (by_name_from m cs) ≡ lookup n m
unfolding by_name_from
lookup-by_name_other n m [] h = refl
lookup-by_name_other n m (x ∷ cs) h =
    ground (arith, lookup-by_name_other n (insert x.name x m) cs, lookup-insert x.name n x m)

-- With distinct names every component is found under its name.
registered :
    (m : Table) (cs : List Component)
    → IsDistinct (names cs)
    → All (λ c. lookup c.name (by_name_from m cs) ≡ some c) cs
unfolding by_name_from
registered m [] d = tt
registered m (x ∷ cs) d = (
  ground (
    arith,
    lookup-by_name_other x.name (insert x.name x m) cs,
    lookup-insert x.name x.name x m,
    beq_iff x.name x.name,
    d.0,
  ),
  registered (insert x.name x m) cs d.1,
)

pub has-Occurs : (c : Component) (cs : List Component) → Occurs c cs → has c.name (names cs) ≡ true
has-Occurs c [] o = absurd o
has-Occurs c (x ∷ cs) o = ground (arith, has-Occurs c cs, beq_iff x.name c.name)

-- If every component of `xs` is one of `cs`, the names of `xs` are among theirs.
has-All-Occurs :
    (n : Text) (xs cs : List Component)
    → All (λ c. Occurs c cs) xs
    → has n (names xs) ≡ true
    → has n (names cs) ≡ true
has-All-Occurs n [] cs a h = cc
has-All-Occurs n (x ∷ xs) cs a h =
    ground (arith, has-All-Occurs n xs cs a.1, has-Occurs x cs a.0, beq_iff x.name n)

module _ (table : Table) (named : Named table) where
  -- After the loop every component of the list is ordered.
  record AfterEach (cs : List Component) (p q : Progress) : Type 0 where
    inv : Inv table q
    keeps : Keeps table p q
    finished : (n : Text) → has n (names cs) ≡ true → has n (names q.ordered) ≡ true

  visit_each-AfterEach :
      (fuel : ℕ) (cs : List Component) (p q : Progress)
      → All (λ c. lookup c.name table ≡ some c) cs
      → Inv table p
      → visit_each fuel table cs p ≡ ok q
      → AfterEach cs p q
  unfolding visit_each
  visit_each-AfterEach fuel [] p q r v e =
      subst (AfterEach [] p) (ok_inj e)
        (record { inv = v; keeps = Keeps-refl table p; finished = λ n h. cc })
  visit_each-AfterEach fuel (c ∷ cs) p q r v e =
      let (q1, first, rest) =
        >>=-eq-ok (λ s. visit_each fuel table cs s) (visit fuel table c [] p) e in
      let a = visit-After table named fuel c [] p q1 r.0 v first in
      let b = visit_each-AfterEach fuel cs q1 q r.1 a.inv rest in
      record {
        inv = b.inv;
        keeps = Keeps-trans table p q1 q a.keeps b.keeps;
        finished = λ n h.
            ground (arith, h, b.finished n, b.keeps.kept c.name a.finished, beq_iff c.name n);
      }

-- What a successful sort of `cs` returns.
pub record IsSort (cs out : List Component) : Type 0 where
  pub distinct : IsDistinct (names out)
  pub same : (n : Text) → has n (names out) ≡ has n (names cs)
  pub ordered : IsOrdered [] out
  pub given : All (λ c. Occurs c cs) out

Bool-iff : (a b : Bool) → (a ≡ true → b ≡ true) → (b ≡ true → a ≡ true) → a ≡ b
Bool-iff true b h k = sym (h refl)
Bool-iff false true h k = k refl
Bool-iff false false h k = refl

All-map {ℓ} :
    {A : Type ℓ} (P Q : A → Type 0) (xs : List A) → ((a : A) → P a → Q a) → All P xs → All Q xs
All-map P Q [] f h = tt
All-map P Q (x ∷ xs) f h = (f x h.0, All-map P Q xs f h.1)

start-Inv : (table : Table) → Inv table (record { state = []; ordered = [] })
unfolding lookup
start-Inv table = record { marks = λ n. refl; distinct = tt; ordered = tt; registered = tt }

Named-by_name_from : (cs : List Component) → Named (by_name_from [] cs)
unfolding lookup
Named-by_name_from cs n c h = ground (arith, lookup-by_name n [] cs c h)

pub lookup-Occurs :
    (d : Text) (cs : List Component) (c : Component)
    → lookup d (by_name_from [] cs) ≡ some c
    → Occurs c cs
unfolding lookup
lookup-Occurs d cs c h = ground (arith, lookup-by_name d [] cs c h)

registered-Occurs :
    (cs : List Component) (c : Component)
    → lookup c.name (by_name_from [] cs) ≡ some c
    → Occurs c cs
unfolding lookup
registered-Occurs cs c h = ground (arith, lookup-by_name c.name [] cs c h)

-- Where the names are distinct, as AddComponent ensures, and orderComponents returns no error, the
-- list that it returns has each of the given components exactly once, every one behind all
-- components that it depends on; a blank dependency counts for nothing.
pub order_components-IsSort :
    (cs out : List Component) → IsDistinct (names cs) → order_components cs ≡ ok out → IsSort cs out
unfolding order_components
order_components-IsSort cs out d e =
    let table = by_name_from [] cs in
    let start : Progress = record { state = []; ordered = [] } in
    let (q, visited, last) =
      >>=-eq-ok (λ p. ok p.ordered) (visit_each (length cs + 1) table cs start) e in
    let a =
      visit_each-AfterEach table (Named-by_name_from cs) (length cs + 1) cs start q
        (registered [] cs d) (start-Inv table) visited in
    let given =
      All-map (λ c. lookup c.name table ≡ some c) (λ c. Occurs c cs) q.ordered
        (λ c h. registered-Occurs cs c h) a.inv.registered in
    subst (IsSort cs) (ok_inj last) (record {
      distinct = a.inv.distinct;
      same = λ n. Bool-iff _ _ (has-All-Occurs n q.ordered cs given) (a.finished n);
      ordered = a.inv.ordered;
      given = given;
    })
