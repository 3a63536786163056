-- ===== src/Clientx/Breaker/Outcomes.antt =====
-- What Do reports: the result of the operation, or an error of its own.
use dilu_go_kit.Base.{ℕ, ◌≡◌, refl, ◌⊎◌, inl, inr, Option, none, some, true, false, Bool-cases}
use dilu_go_kit.Errors.{Error, is_nil}
use dilu_go_kit.Clientx.Breaker.{Breaker, Permit, Outcome, before, finish_call, do_call}

abbrev pub Reported : Error → Outcome → Type 0
Reported err out =
    ((out.called ≡ true) × (out.result ≡ err))
    ⊎ ((out.called ≡ false) × (is_nil out.result ≡ false))

finished :
    (err : Error) (done : ℕ) (o : Breaker × Option Permit) → Reported err (finish_call err done o).1
unfolding finish_call
finished err done (b, none) = inr (refl, refl)
finished err done (b, some permit) = inl (refl, refl)

pub do_call-Reported :
    (b : Breaker) (ctx_err err : Error) (start done : ℕ)
    → Reported err (do_call b ctx_err (some err) start done).1
unfolding do_call
do_call-Reported b ctx_err err start done = elim (Bool-cases (is_nil ctx_err)) [
  | inl live ↦ rw live (finished err done (before b start))
  | inr dead ↦ rw dead (inr (refl, dead))
]
