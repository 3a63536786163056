-- ===== src/Tests/MigrateRuns.antt =====
-- Two goroutines at the same time, and a clock that goes back.
use dilu_go_kit.Base.{◌≡◌, refl, List, [], ◌∷◌}
use dilu_go_kit.Migrate.{Event, call, go, run, step, turn, enter, compare_and_swap, start}
use dilu_go_kit.Migrate.Order.{Rising}
use dilu_go_kit.Migrate.Progress.{IsBusy, Issued, versions_rise}

abbrev crossed : List Event
crossed =
    call 0 100 ∷ call 1 100 ∷ go 0 ∷ go 1 ∷ go 1 ∷ go 0 ∷ go 0 ∷ go 0 ∷ call 1 50 ∷ go 1 ∷ go 1 ∷ []

three_versions : (run start crossed).issued ≡ 102 ∷ 101 ∷ 100 ∷ []
unfolding run step turn enter compare_and_swap
three_versions = refl

versions_rise_example :
    let s = run start (call 0 100 ∷ call 1 100 ∷ go 0 ∷ go 1 ∷ go 1 ∷ []) in
    Rising s.issued × ((i : _) → IsBusy (s.workers i) → Issued s (run s (go i ∷ go i ∷ go i ∷ [])))
versions_rise_example = versions_rise (call 0 100 ∷ call 1 100 ∷ go 0 ∷ go 1 ∷ go 1 ∷ [])
