-- ===== src/Boot/Components/Ordering.antt =====
-- What a successful sort returns.
use dilu_go_kit.Base.{
  ℕ, zero, suc, ◌≡◌, refl, ap, subst, ◌∙◌, inl, inr, List, [], ◌∷◌, ◌++◌, Option, none, some, Bool,
  true, false, ◌||◌, All, All-snoc, arith, Bool-cases, Option-cases,
}
use dilu_go_kit.Base.Text.{Text, beq, beq_iff, trim_space}
use dilu_go_kit.Base.Text.Sorting.{has, IsDistinct}
use dilu_go_kit.Base.Dict.{lookup, lookup-insert}
use dilu_go_kit.Base.Result.{Result, ok, >>=-eq-ok, ok_inj}
use dilu_go_kit.Boot.Components.{
  Error, Component, Mark, visiting, done, Progress, Table, visit_all, visit, enter, leave,
}

abbrev pub names : List Component → List Text
names [] = []
names (c ∷ cs) = c.name ∷ names cs

-- Every dependency is blank or one of the names.
abbrev pub DependsIn : List Text → List Text → Type 0
DependsIn seen [] = Unit {0}
DependsIn seen (d ∷ ds) =
    ((beq (trim_space d) [] || has (trim_space d) seen) ≡ true) × DependsIn seen ds

-- Every component stands behind its dependencies; `seen` are the names before the list.
abbrev pub IsOrdered : List Text → List Component → Type 0
IsOrdered seen [] = Unit {0}
IsOrdered seen (c ∷ cs) = DependsIn seen c.depends_on × IsOrdered (c.name ∷ seen) cs

DependsIn-mono :
    (s t ds : List Text)
    → ((n : Text) → has n s ≡ true → has n t ≡ true)
    → DependsIn s ds
    → DependsIn t ds
DependsIn-mono s t [] h d = tt
DependsIn-mono s t (x ∷ ds) h d =
    (ground (arith, h (trim_space x), d.0), DependsIn-mono s t ds h d.1)

IsOrdered-snoc :
    (seen : List Text) (cs : List Component) (c : Component) (t : List Text)
    → ((n : Text) → has n t ≡ true → (has n seen || has n (names cs)) ≡ true)
    → DependsIn t c.depends_on
    → IsOrdered seen cs
    → IsOrdered seen (cs ++ c ∷ [])
IsOrdered-snoc seen [] c t h d o =
    (DependsIn-mono t seen c.depends_on (λ n p. ground (arith, h n p)) d, tt)
IsOrdered-snoc seen (x ∷ cs) c t h d o =
    (o.0, IsOrdered-snoc (x.name ∷ seen) cs c t (λ n p. ground (arith, h n p)) d o.1)

has-names-snoc :
    (n : Text) (cs : List Component) (c : Component)
    → has n (names (cs ++ c ∷ [])) ≡ (has n (names cs) || beq c.name n)
has-names-snoc n [] c = ground arith
has-names-snoc n (x ∷ cs) c = ground (arith, has-names-snoc n cs c)

IsDistinct-snoc :
    (cs : List Component) (c : Component)
    → has c.name (names cs) ≡ false
    → IsDistinct (names cs)
    → IsDistinct (names (cs ++ c ∷ []))
IsDistinct-snoc [] c h d = (refl, tt)
IsDistinct-snoc (x ∷ cs) c h d = ground (
  arith,
  has-names-snoc x.name cs c,
  IsDistinct-snoc cs c,
  beq_iff c.name x.name,
  beq_iff x.name c.name,
)

abbrev pub is_done : Option Mark → Bool
is_done none = false
is_done (some visiting) = false
is_done (some done) = true

-- Every entry of the table stands under the name of its component.
abbrev pub Named : Table → Type 0
Named table = (n : Text) (c : Component) → lookup n table ≡ some c → c.name ≡ n

module _ (table : Table) where
  pub record Inv (p : Progress) : Type 0 where
    pub marks : (n : Text) → has n (names p.ordered) ≡ is_done (lookup n p.state)
    pub distinct : IsDistinct (names p.ordered)
    pub ordered : IsOrdered [] p.ordered
    pub registered : All (λ c. lookup c.name table ≡ some c) p.ordered

  -- What a step leaves as it was: the components that are ordered, and those that are visited.
  pub record Keeps (p q : Progress) : Type 0 where
    pub kept : (n : Text) → has n (names p.ordered) ≡ true → has n (names q.ordered) ≡ true
    pub pending : (n : Text) → lookup n p.state ≡ some visiting → lookup n q.state ≡ some visiting

  pub Keeps-refl : (p : Progress) → Keeps p p
  Keeps-refl p = record { kept = λ n h. h; pending = λ n h. h }

  pub Keeps-trans : (p q r : Progress) → Keeps p q → Keeps q r → Keeps p r
  Keeps-trans p q r h k = record {
    kept = λ n e. k.kept n (h.kept n e);
    pending = λ n e. k.pending n (h.pending n e);
  }

  enter-Inv :
      (c : Component) (p : Progress) → lookup c.name p.state ≡ none → Inv p → Inv (enter c p)
  enter-Inv c p new v = record {
    marks = λ n. ground (
      arith,
      v.marks n,
      v.marks c.name,
      lookup-insert c.name n visiting p.state,
      beq_iff c.name n,
      new,
    );
    distinct = v.distinct;
    ordered = v.ordered;
    registered = v.registered;
  }

  leave-Inv :
      (c : Component) (q : Progress)
      → lookup c.name table ≡ some c
      → lookup c.name q.state ≡ some visiting
      → DependsIn (names q.ordered) c.depends_on
      → Inv q
      → Inv (leave c q)
  leave-Inv c q reg mark deps v = record {
    marks = λ n.
        ground
          (arith, v.marks n, has-names-snoc n q.ordered c, lookup-insert c.name n done q.state);
    distinct = IsDistinct-snoc q.ordered c (ground (arith, v.marks c.name, mark)) v.distinct;
    ordered = IsOrdered-snoc [] q.ordered c (names q.ordered) (λ n h. h) deps v.ordered;
    registered = All-snoc (λ c. lookup c.name table ≡ some c) q.ordered c reg v.registered;
  }

module _ (table : Table) (named : Named table) where
  -- What a call of `visit` on a component achieves.
  pub record After (c : Component) (p q : Progress) : Type 0 where
    pub inv : Inv table q
    pub keeps : Keeps table p q
    pub finished : has c.name (names q.ordered) ≡ true

  abbrev pub Good : (Component → List Text → Progress → Result Error Progress) → Type 0
  Good call =
      (c : Component) (path : List Text) (p q : Progress)
      → lookup c.name table ≡ some c
      → Inv table p
      → call c path p ≡ ok q
      → After c p q

  -- The loop over the dependencies, which are then all ordered.
  record AfterAll (ds : List Text) (p q : Progress) : Type 0 where
    pub inv : Inv table q
    pub keeps : Keeps table p q
    depends : DependsIn (names q.ordered) ds

  visit_all-AfterAll :
      (call : Component → List Text → Progress → Result Error Progress)
      → Good call
      → (name : Text) (path ds : List Text) (p q : Progress) → Inv table p
      → visit_all call table name path ds p ≡ ok q
      → AfterAll ds p q
  unfolding visit_all
  visit_all-AfterAll call good name path [] p q v e =
      subst (λ r. AfterAll [] p r) (ok_inj e)
        (record { inv = v; keeps = Keeps-refl table p; depends = tt })
  visit_all-AfterAll call good name path (d ∷ ds) p q v e =
      elim (Bool-cases (beq (trim_space d) [])) [
        | inl blank ↦
            let a = visit_all-AfterAll call good name path ds p q v (rw blank at e) in
            record { inv = a.inv; keeps = a.keeps; depends = (rw blank, a.depends) }
        | inr dep ↦ elim (Option-cases (lookup (trim_space d) table)) [
          | inl absent ↦ cc (rw (dep, absent) at e)
          | inr (c, found) ↦
              let (q1, called, rest) =
                >>=-eq-ok (λ r. visit_all call table name path ds r) (call c (path ++ name ∷ []) p)
                  (rw (dep, found) at e) in
              let same = named (trim_space d) c found in
              let a =
                good c (path ++ name ∷ []) p q1 (ap (λ n. lookup n table) same ∙ found) v called in
              let b = visit_all-AfterAll call good name path ds q1 q a.inv rest in
              let there = b.keeps.kept c.name a.finished in
              record {
                inv = b.inv;
                keeps = Keeps-trans table p q1 q a.keeps b.keeps;
                depends = (rw (dep, ← same) there, b.depends);
              }
        ]
      ]

  leave-Keeps :
      (c : Component) (p q : Progress)
      → lookup c.name p.state ≡ none
      → Keeps table (enter c p) q
      → Keeps table p (leave c q)
  leave-Keeps c p q new k = record {
    kept = λ n h. ground (arith, k.kept n h, has-names-snoc n q.ordered c);
    pending = λ n h. ground (
      arith,
      h,
      new,
      k.pending n,
      lookup-insert c.name n visiting p.state,
      lookup-insert c.name n done q.state,
      beq_iff c.name n,
    );
  }

  pub visit-After : (fuel : ℕ) → Good (visit fuel table)
  unfolding visit
  visit-After zero c path p q reg v e = cc
  visit-After (suc fuel) c path p q reg v e = elim (Option-cases (lookup c.name p.state)) [
    | inl new ↦
        let (q1, inner, last) =
          >>=-eq-ok (λ r. ok (leave c r))
            (visit_all (visit fuel table) table c.name path c.depends_on (enter c p))
            (rw (new, visit) at e) in
        let a =
          visit_all-AfterAll (visit fuel table) (visit-After fuel) c.name path c.depends_on
            (enter c p) q1 (enter-Inv table c p new v) inner in
        let mark =
          a.keeps.pending c.name
            (ground (arith, lookup-insert c.name c.name visiting p.state, beq_iff c.name c.name)) in
        subst (After c p) (ok_inj last) (record {
          inv = leave-Inv table c q1 reg mark a.depends a.inv;
          keeps = leave-Keeps c p q1 new a.keeps;
          finished = ground (arith, has-names-snoc c.name q1.ordered c, beq_iff c.name c.name);
        })
    | inr (visiting, busy) ↦ cc (rw (busy, visit) at e)
    | inr (done, over) ↦ subst (After c p) (ok_inj (rw (over, visit) at e)) (record {
      inv = v;
      keeps = Keeps-refl table p;
      finished = ground (arith, v.marks c.name, over);
    })
  ]
