-- ===== src/Base/Text/Commas.antt =====
-- Lists of texts with commas between them.
use Prim.Native.Nat.{ℕ}
use mathlib.Core.Path.{◌≡◌, refl, ap, ◌∙◌}
use mathlib.Core.Logic.{◌≢◌}
use mathlib.Core.Bool.{false}
use mathlib.Core.List.{List, [], ◌∷◌, ◌++◌}
use native.Mathlib.Omega.{arith}
use dilu_go_kit.Base.Tests.{◌==◌, if◌then◌else◌}
use dilu_go_kit.Base.Lists.{All}
use dilu_go_kit.Base.Text.{Text, contains}

-- strings.Join(parts, ",")
unfoldable pub join : List Text → Text
join [] = []
join (p ∷ []) = p
join (p ∷ q ∷ ps) = p ++ b',' ∷ join (q ∷ ps)

-- strings.Split(s, ",")
abbrev pub push : ℕ → List Text → List Text
push c [] = (c ∷ []) ∷ []
push c (p ∷ ps) = (c ∷ p) ∷ ps

unfoldable pub split : Text → List Text
split [] = [] ∷ []
split (c ∷ s) = let rest = split s in if c == b',' then [] ∷ rest else push c rest

split_one : (p : Text) → contains b',' p ≡ false → split p ≡ p ∷ []
unfolding split contains
split_one [] h = refl
split_one (c ∷ p) h = ground (arith, split_one p)

split_first : (p s : Text) → contains b',' p ≡ false → split (p ++ b',' ∷ s) ≡ p ∷ split s
unfolding split contains
split_first [] s h = refl
split_first (c ∷ p) s h = ground (arith, split_first p s)

pub split-join :
    (p : Text) (ps : List Text)
    → All (λ q. contains b',' q ≡ false) (p ∷ ps)
    → split (join (p ∷ ps)) ≡ p ∷ ps
unfolding join
split-join p [] h = split_one p h.0
split-join p (q ∷ ps) h = split_first p (join (q ∷ ps)) h.0 ∙ ap (λ r. p ∷ r) (split-join q ps h.1)

pub split_kept :
    (ps : List Text) → ps ≢ [] → All (λ q. contains b',' q ≡ false) ps → split (join ps) ≡ ps
split_kept [] ne h = absurd (ne refl)
split_kept (p ∷ ps) ne h = split-join p ps h
