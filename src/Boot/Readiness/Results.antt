-- ===== src/Boot/Readiness/Results.antt =====
-- boot/app.go: the results of the checks that readinessOK collects.
use dilu_go_kit.Base.{
  ℕ, ◌≡◌, refl, inl, inr, suc, zero, List, [], ◌∷◌, Option, none, some, true, false, ◌==◌, arith,
  Bool-cases,
}
use dilu_go_kit.Base.Text.{Text}
use dilu_go_kit.Boot.Readiness.{
  run_readiness_check, Arrival, result, expired, is_nil_error, collect,
}

-- As many checks as were started have returned nil, before the context was done.
abbrev pub AllPassed : ℕ → List Arrival → Type 0
AllPassed zero xs = Unit {0}
AllPassed (suc n) [] = ⊥
AllPassed (suc n) (expired ∷ xs) = ⊥
AllPassed (suc n) (result e ∷ xs) = (run_readiness_check e ≡ none) × AllPassed n xs

collect_failed : (n : ℕ) (xs : List Arrival) → collect n false xs ≡ some true → ⊥
unfolding collect
collect_failed zero xs h = cc
collect_failed (suc n) [] h = cc
collect_failed (suc n) (expired ∷ xs) h = cc
collect_failed (suc n) (result e ∷ xs) h = collect_failed n xs h

nil_error : (e : Option Text) → is_nil_error e ≡ true → e ≡ none
nil_error none h = refl
nil_error (some t) h = cc

pub collect_passed : (n : ℕ) (xs : List Arrival) → collect n true xs ≡ some true → AllPassed n xs
unfolding collect
collect_passed zero xs h = tt
collect_passed (suc n) [] h = cc
collect_passed (suc n) (expired ∷ xs) h = cc
collect_passed (suc n) (result e ∷ xs) h =
    elim (Bool-cases (is_nil_error (run_readiness_check e))) [
      | inl ok ↦ (nil_error (run_readiness_check e) ok, collect_passed n xs (rw ok at h))
      | inr failed ↦ absurd (collect_failed n xs (rw failed at h))
    ]

pub none_started : (n : ℕ) (xs : List Arrival) → (n == 0) ≡ true → AllPassed n xs
none_started zero xs h = tt
none_started (suc n) xs h = absurd (ground (arith, h))

pub passed-collect : (n : ℕ) (xs : List Arrival) → AllPassed n xs → collect n true xs ≡ some true
unfolding collect
passed-collect zero xs h = refl
passed-collect (suc n) [] h = absurd h
passed-collect (suc n) (expired ∷ xs) h = absurd h
passed-collect (suc n) (result e ∷ xs) h = rw (h.0) (passed-collect n xs h.1)
