-- ===== src/Tests/ResolverRuns.antt =====
-- A resolver of three instances.
use dilu_go_kit.Base.{◌+◌, ◌^◌, ◌≡◌, refl, [], ◌∷◌, arith}
use dilu_go_kit.Base.Text.{Text, codes}
use dilu_go_kit.Registry.{Service, zero_service}
use dilu_go_kit.Registry.Resolver.{index_panic, resolve, resolve_many, answer, signed_mod, picked}
use dilu_go_kit.Registry.Resolver.Rotation.{at, rotation}

abbrev instance_of : Text → Service
instance_of id = record zero_service { instance_id = id }

abbrev one : Service
one = instance_of (codes "1")

abbrev two : Service
two = instance_of (codes "2")

abbrev three : Service
three = instance_of (codes "3")

rotation_example :
    resolve_many 3 (at (one ∷ two ∷ three ∷ []) 7)
    ≡ (at (one ∷ two ∷ three ∷ []) 10, picked two ∷ picked three ∷ picked one ∷ [])
rotation_example = rotation (one ∷ []) (two ∷ three ∷ []) 7 refl (omega arith)

-- Past 2^63 the index is negative.
wrapped : (resolve (at (one ∷ two ∷ three ∷ []) (2 ^ 63 + 1))).1 ≡ index_panic
unfolding resolve answer signed_mod
wrapped = refl
