-- ===== src/Base/Dict.antt =====
-- Go's map[string]V as an association list with one entry for each key. The order of the entries
-- stands for the order in which `range` visits them, which Go leaves open.
use mathlib.Core.Path.{◌≡◌, refl}
use mathlib.Core.Bool.{Bool, true, false, ◌||◌}
use mathlib.Core.Logic.{inl, inr}
use mathlib.Core.Option.{Option, none, some}
use mathlib.Core.List.{List, [], ◌∷◌}
use native.Mathlib.Omega.{arith}
use dilu_go_kit.Base.Tests.{if◌then◌else◌, Bool-cases}
use dilu_go_kit.Base.Text.{Text, beq, beq_iff}
use dilu_go_kit.Base.Text.Sorting.{has, IsDistinct}

-- The first of two values that is there.
abbrev pub or_else {ℓ} : {A : Type ℓ} → Option A → Option A → Option A
or_else none b = b
or_else (some a) b = some a

abbrev pub is_some {ℓ} : {A : Type ℓ} → Option A → Bool
is_some none = false
is_some (some a) = true

module _ {ℓ} {V : Type ℓ} where
  -- `v, ok := m[k]`
  unfoldable pub lookup : Text → List (Text × V) → Option V
  lookup k [] = none
  lookup k ((j, v) ∷ m) = if beq j k then some v else lookup k m

  -- `m[k] = v`
  unfoldable pub insert : Text → V → List (Text × V) → List (Text × V)
  insert k v [] = (k, v) ∷ []
  insert k v ((j, w) ∷ m) = if beq j k then (k, v) ∷ m else (j, w) ∷ insert k v m

  -- `delete(m, k)`
  unfoldable pub remove : Text → List (Text × V) → List (Text × V)
  remove k [] = []
  remove k ((j, w) ∷ m) = let rest = remove k m in if beq j k then rest else (j, w) ∷ rest

  abbrev pub keys : List (Text × V) → List Text
  keys [] = []
  keys ((k, v) ∷ m) = k ∷ keys m

  pub lookup-insert :
      (k j : Text) (v : V) (m : List (Text × V))
      → lookup j (insert k v m) ≡ (if beq k j then some v else lookup j m)
  unfolding lookup insert
  lookup-insert k j v [] = refl
  lookup-insert k j v ((i, w) ∷ m) =
      ground (arith, beq_iff k j, beq_iff i k, beq_iff i j, lookup-insert k j v m)

  pub lookup-has :
      (k : Text) (m : List (Text × V)) → has k (keys m) ≡ true → (v : V) × (lookup k m ≡ some v)
  unfolding lookup
  lookup-has k [] h = cc
  lookup-has k ((j, w) ∷ m) h = elim (Bool-cases (beq j k)) [
    | inl hit ↦ (w, rw hit)
    | inr miss ↦ rw miss (lookup-has k m (ground arith))
  ]

  pub lookup_absent : (k : Text) (m : List (Text × V)) → has k (keys m) ≡ false → lookup k m ≡ none
  unfolding lookup
  lookup_absent k [] h = refl
  lookup_absent k ((j, w) ∷ m) h = ground (arith, lookup_absent k m)

  has-keys-insert :
      (j k : Text) (v : V) (m : List (Text × V))
      → has j (keys (insert k v m)) ≡ (beq k j || has j (keys m))
  unfolding insert
  has-keys-insert j k v [] = refl
  has-keys-insert j k v ((i, w) ∷ m) =
      ground (arith, has-keys-insert j k v m, beq_iff i k, beq_iff i j, beq_iff k j)

  pub insert-IsDistinct :
      (k : Text) (v : V) (m : List (Text × V))
      → IsDistinct (keys m)
      → IsDistinct (keys (insert k v m))
  unfolding insert
  insert-IsDistinct k v [] d = (refl, tt)
  insert-IsDistinct k v ((i, w) ∷ m) d =
      ground (arith, insert-IsDistinct k v m d.1, has-keys-insert i k v m, beq_iff i k, beq_iff k i)

  pub lookup-remove :
      (k j : Text) (m : List (Text × V))
      → lookup j (remove k m) ≡ (if beq k j then none else lookup j m)
  unfolding lookup remove
  lookup-remove k j [] = ground arith
  lookup-remove k j ((i, w) ∷ m) =
      ground (arith, beq_iff k j, beq_iff i k, beq_iff i j, lookup-remove k j m)

  pub has-keys : (k : Text) (m : List (Text × V)) → has k (keys m) ≡ is_some (lookup k m)
  unfolding lookup
  has-keys k [] = refl
  has-keys k ((j, w) ∷ m) = ground (arith, has-keys k m)

  has-keys-remove :
      (j k : Text) (m : List (Text × V))
      → has j (keys m) ≡ false
      → has j (keys (remove k m)) ≡ false
  unfolding remove
  has-keys-remove j k [] h = refl
  has-keys-remove j k ((i, w) ∷ m) h = ground (arith, h, has-keys-remove j k m)

  pub remove-IsDistinct :
      (k : Text) (m : List (Text × V)) → IsDistinct (keys m) → IsDistinct (keys (remove k m))
  unfolding remove
  remove-IsDistinct k [] d = tt
  remove-IsDistinct k ((i, w) ∷ m) (d, ds) =
      ground (arith, remove-IsDistinct k m ds, has-keys-remove i k m d)
