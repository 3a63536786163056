-- ===== src/Boot/Lifecycle/Shutdown.antt =====
-- The order of Start and Stop calls over the life of an application.
use dilu_go_kit.Base.{
  List, [], ◌∷◌, ◌++◌, map, Option, none, some, false, ◌||◌, ◌≡◌, refl, ap, sym, All, All-snoc,
  subst, ◌⊎◌, inl, inr, arith, append_assoc, append-nil,
}
use mathlib.Core.List.{reverse}
use dilu_go_kit.Base.Result.{ok, err}
use dilu_go_kit.Base.Text.{Text, beq, trim_space, beq_iff}
use dilu_go_kit.Base.Text.Sorting.{has, IsDistinct}
use dilu_go_kit.Boot.Components.{Component, order_components}
use dilu_go_kit.Boot.Components.Ordering.{names}
use dilu_go_kit.Boot.Components.Sound.{IsSort, order_components-IsSort}
use dilu_go_kit.Boot.Lifecycle.{
  App, new_app, Candidate, World, Fault, start_of, stop_of, add_component, run_starts, start_one,
  start_components, stop_components, start_failed, launch, finish_start,
}

-- The application after some calls of AddComponent, whatever they returned.
unfoldable pub add_all : App → List (Option Candidate) → App
add_all a [] = a
add_all a (k ∷ ks) = add_all (add_component a k).0 ks

has-snoc :
    (n : Text) (cs : List Component) (c : Component)
    → has n (names (cs ++ c ∷ [])) ≡ (has n (names cs) || beq c.name n)
has-snoc n [] c = ground arith
has-snoc n (x ∷ cs) c = ground (arith, has-snoc n cs c)

IsDistinct-snoc :
    (cs : List Component) (c : Component)
    → IsDistinct (names cs)
    → has c.name (names cs) ≡ false
    → IsDistinct (names (cs ++ c ∷ []))
IsDistinct-snoc [] c d h = (refl, tt)
IsDistinct-snoc (x ∷ cs) c d h = (
  ground (arith, has-snoc x.name cs c, d.0, beq_iff c.name x.name, beq_iff x.name c.name),
  IsDistinct-snoc cs c d.1 (ground arith),
)

abbrev pub AreNamed : List Component → Type 0
AreNamed cs = All (λ c. beq (trim_space c.name) [] ≡ false) cs × IsDistinct (names cs)

-- A call that registers a component, and one that does not.
registering :
    (a : App) (k : Candidate)
    → let cs = (add_component a (some k)).0.components in
      (cs ≡ a.components)
      ⊎ ((cs ≡ a.components ++ k.component ∷ [])
          × (beq (trim_space k.component.name) [] ≡ false)
          × (has k.component.name (names a.components) ≡ false))
unfolding add_component
registering a k = ground arith

add_component-AreNamed :
    (a : App) (k : Option Candidate)
    → AreNamed a.components
    → AreNamed (add_component a k).0.components
unfolding add_component
add_component-AreNamed a none h = h
add_component-AreNamed a (some k) h = elim (registering a k) [
  | inl same ↦ subst AreNamed (sym same) h
  | inr (longer, named, new) ↦ subst AreNamed (sym longer) (
    All-snoc (λ (x : Component). beq (trim_space x.name) [] ≡ false) a.components k.component named
        h.0,
    IsDistinct-snoc a.components k.component h.1 new,
  )
]

add_all-AreNamed :
    (a : App) (ks : List (Option Candidate))
    → AreNamed a.components
    → AreNamed (add_all a ks).components
unfolding add_all
add_all-AreNamed a [] h = h
add_all-AreNamed a (k ∷ ks) h =
    add_all-AreNamed (add_component a k).0 ks (add_component-AreNamed a k h)

run_starts_fine :
    (w : World) (done cs : List Component)
    → All (λ c. w.start c ≡ none) cs
    → run_starts w done cs ≡ (map start_of cs, ok (done ++ cs))
unfolding run_starts start_one
run_starts_fine w done [] h = ap (λ x. ([], ok x)) (sym (append-nil done))
run_starts_fine w done (c ∷ cs) h =
    rw (h.0, run_starts_fine w (done ++ c ∷ []) cs h.1)
      (ap (λ x. (map start_of (c ∷ cs), ok x)) (append_assoc done (c ∷ []) cs))

run_starts_failed :
    (w : World) (done before : List Component) (c : Component) (later : List Component) (f : Fault)
    → All (λ x. w.start x ≡ none) before
    → w.start c ≡ some f
    → run_starts w done (before ++ c ∷ later)
      ≡ (map start_of before ++ start_of c ∷ map stop_of (reverse (done ++ before)), err (c, f))
unfolding run_starts start_one
run_starts_failed w done [] c later f h e =
    rw (e) (ap (λ x. (start_of c ∷ map stop_of (reverse x), err (c, f))) (sym (append-nil done)))
run_starts_failed w done (x ∷ xs) c later f h e =
    rw (h.0, run_starts_failed w (done ++ x ∷ []) xs c later f h.1 e)
      (ap (λ y. (map start_of (x ∷ xs) ++ start_of c ∷ map stop_of (reverse y), err (c, f)))
        (append_assoc done (x ∷ []) xs))

-- Nothing has been started or stopped.
abbrev pub Untouched : App → Type 0
Untouched a = (a.log ≡ []) × (a.stop_done ≡ false) × (a.started_components ≡ [])

add_component-Untouched :
    (a : App) (k : Option Candidate) → Untouched a → Untouched (add_component a k).0
unfolding add_component
add_component-Untouched a none h = h
add_component-Untouched a (some k) h = ground (arith, h)

add_all-Untouched :
    (a : App) (ks : List (Option Candidate)) → Untouched a → Untouched (add_all a ks)
unfolding add_all
add_all-Untouched a [] h = h
add_all-Untouched a (k ∷ ks) h =
    add_all-Untouched (add_component a k).0 ks (add_component-Untouched a k h)

-- An application whose components come from calls of AddComponent, failed calls included, and all
-- start. startComponents then returns nil, having started each component once and behind all that it
-- depends on; stopComponents stops them in the reverse order; and a second stopComponents changes
-- nothing and returns no error.
pub orderly_life :
    (w : World) (ks : List (Option Candidate)) (out : List Component)
    → order_components (add_all new_app ks).components ≡ ok out
    → All (λ c. w.start c ≡ none) out
    → let (up, problem) = start_components w (add_all new_app ks) in
      let down = (stop_components w up).0 in
      IsSort (add_all new_app ks).components out
      × (problem ≡ none)
      × (down.log ≡ map start_of out ++ map stop_of (reverse out))
      × (stop_components w down ≡ (down, []))
unfolding start_components launch finish_start stop_components
orderly_life w ks out e fine =
    let h = add_all-Untouched new_app ks (refl, refl, refl) in
    (
      order_components-IsSort (add_all new_app ks).components out
          (add_all-AreNamed new_app ks (tt, tt)).1 e,
      rw (e, run_starts_fine w [] out fine) refl,
      rw (e, run_starts_fine w [] out fine, h.0, h.1) refl,
      rw (e, run_starts_fine w [] out fine, h.0, h.1) refl,
    )

-- Where the components come from calls of AddComponent and one fails to start, startComponents
-- returns its error, and by then it has started those before it and the one itself, nothing behind
-- it, and has stopped those before it, the last one first, without keeping any as started; a later
-- stopComponents calls no Stop and returns no error.
pub failed_start :
    (w : World) (ks : List (Option Candidate)) (before : List Component) (c : Component)
    (later : List Component) (f : Fault)
    → order_components (add_all new_app ks).components ≡ ok (before ++ c ∷ later)
    → All (λ x. w.start x ≡ none) before
    → w.start c ≡ some f
    → let (up, problem) = start_components w (add_all new_app ks) in
      (problem ≡ some (start_failed c f))
      × (up.log ≡ map start_of before ++ start_of c ∷ map stop_of (reverse before))
      × (up.started_components ≡ [])
      × ((stop_components w up).0.log ≡ up.log)
      × ((stop_components w up).1 ≡ [])
unfolding start_components launch finish_start stop_components
failed_start w ks before c later f e fine bad =
    let h = add_all-Untouched new_app ks (refl, refl, refl) in
    let failed = run_starts_failed w [] before c later f fine bad in
    (
      rw (e, failed) refl,
      rw (e, failed, h.0) refl,
      rw (e, failed, h.2) refl,
      rw (e, failed, h.0, h.1, h.2, append-nil) refl,
      rw (e, failed, h.1, h.2) refl,
    )
