-- ===== src/Stream/Consumer/Outage.antt =====
-- What the loop reports over an outage, and how long it sleeps in it.
use dilu_go_kit.Base.{
  ℕ, suc, ◌+◌, ◌<◌, ◌≡◌, refl, ap, sym, ◌∙◌, List, [], ◌∷◌, ◌++◌, map, none, some, true, false, ltb,
  length, All, arith,
}
use dilu_go_kit.Base.Int.{ℤ, pos, ◌-ℤ◌, leb_ℤ}
use dilu_go_kit.Base.Text.{Text, beq, beq_iff}
use dilu_go_kit.Errors.{nil}
use dilu_go_kit.Stream.Consumer.{
  Options, Failure, PollRecovery, Output, failure_of, recovery_of, sleep_of, Loop, fresh,
  next_backoff, bounded_delay, error_key, time_or, fail, succeed, Round, run_loop, turn,
}

-- A failed poll under a live context and a sleep that is not cut short.
pub record Miss : Type 0 where
  pub failure : Failure
  pub at : ℕ
  pub jitter : ℤ → ℤ

abbrev pub missed : Miss → Round
missed m = record {
  ctx_before = nil;
  poll = some m.failure;
  ctx_after = nil;
  now = m.at;
  jitter = m.jitter;
  slept = nil;
}

-- A poll that succeeds.
abbrev pub hit : ℕ → Round
hit now = record {
  ctx_before = nil;
  poll = none;
  ctx_after = nil;
  now = now;
  jitter = λ d. d;
  slept = nil;
}

abbrev pub recoveries : List Output → List PollRecovery
recoveries [] = []
recoveries (recovery_of r ∷ out) = r ∷ recoveries out
recoveries (failure_of f ∷ out) = recoveries out
recoveries (sleep_of d ∷ out) = recoveries out

abbrev pub reports : List Output → ℕ
reports [] = 0
reports (failure_of f ∷ out) = suc (reports out)
reports (recovery_of r ∷ out) = reports out
reports (sleep_of d ∷ out) = reports out

abbrev pub sleeps : List Output → List ℤ
sleeps [] = []
sleeps (sleep_of d ∷ out) = d ∷ sleeps out
sleeps (failure_of f ∷ out) = sleeps out
sleeps (recovery_of r ∷ out) = sleeps out

recoveries-append : (xs ys : List Output) → recoveries (xs ++ ys) ≡ recoveries xs ++ recoveries ys
recoveries-append [] ys = refl
recoveries-append (recovery_of r ∷ xs) ys = ap (λ l. r ∷ l) (recoveries-append xs ys)
recoveries-append (failure_of f ∷ xs) ys = recoveries-append xs ys
recoveries-append (sleep_of d ∷ xs) ys = recoveries-append xs ys

reports-append : (xs ys : List Output) → reports (xs ++ ys) ≡ reports xs + reports ys
reports-append [] ys = omega arith
reports-append (failure_of f ∷ xs) ys = omega (arith, reports-append xs ys)
reports-append (recovery_of r ∷ xs) ys = reports-append xs ys
reports-append (sleep_of d ∷ xs) ys = reports-append xs ys

pub sleeps-append : (xs ys : List Output) → sleeps (xs ++ ys) ≡ sleeps xs ++ sleeps ys
sleeps-append [] ys = refl
sleeps-append (sleep_of d ∷ xs) ys = ap (λ l. d ∷ l) (sleeps-append xs ys)
sleeps-append (failure_of f ∷ xs) ys = sleeps-append xs ys
sleeps-append (recovery_of r ∷ xs) ys = sleeps-append xs ys

module _ (o : Options) where
  abbrev pub next_state : Loop → Miss → Loop
  next_state s m = (fail o s m.failure m.at (m.jitter s.backoff)).0

  fail_counts :
      (s : Loop) (m : Miss)
      → let (s', out) = fail o s m.failure m.at (m.jitter s.backoff) in
        (reports out + s'.total_suppressed ≡ s.total_suppressed + 1)
        × (s'.attempts ≡ s.attempts + 1)
        × (s'.outage_started ≡ some (time_or m.at s.outage_started))
  unfolding fail
  fail_counts s m = ground arith

  pub fail_output :
      (s : Loop) (m : Miss)
      → let (s', out) = fail o s m.failure m.at (m.jitter s.backoff) in
        (recoveries out ≡ [])
        × (sleeps out ≡ bounded_delay o.max_backoff (m.jitter s.backoff) ∷ [])
        × (s'.backoff ≡ next_backoff s.backoff o.max_backoff)
  unfolding fail
  fail_output s m = ground arith

  -- The rounds `ms` and the recovery after them, from a state of an outage that began at `t`.
  abbrev Recovers : Loop → List Miss → (now t : ℕ) → Type 0
  Recovers s ms now t =
      let run = run_loop o s (map missed ms ++ hit now ∷ []) in
      (k : ℕ) × (k + reports run.output ≡ s.total_suppressed + length ms)
      × (recoveries run.output
          ≡ record {
            attempts = s.attempts + length ms;
            suppressed = k;
            duration = pos now -ℤ pos t;
          }
            ∷ [])

  prepend :
      (s : Loop) (m : Miss) (ms : List Miss) (now t : ℕ)
      → Recovers (next_state s m) ms now t
      → Recovers s (m ∷ ms) now t
  unfolding run_loop turn
  prepend s m ms now t (k, total, report) =
      let (counts, attempts, started) = fail_counts s m in
      let (quiet, slept, backoff) = fail_output s m in
      let out = (fail o s m.failure m.at (m.jitter s.backoff)).1 in
      let later = (run_loop o (next_state s m) (map missed ms ++ hit now ∷ [])).output in
      (
        k,
        omega (arith, reports-append out later, counts, total),
        rw (recoveries-append out later, quiet)
            (report
              ∙ ap
                  (λ (n : ℕ).
                    record { attempts = n; suppressed = k; duration = pos now -ℤ pos t } ∷ [])
                  (omega (arith, attempts))),
      )

  -- The end of an outage that has begun.
  recovers :
      (s : Loop) (ms : List Miss) (now t : ℕ)
      → 0 < s.attempts
      → s.outage_started ≡ some t
      → Recovers s ms now t
  unfolding run_loop turn succeed
  recovers s [] now t pos_attempts e =
      let up : ltb 0 s.attempts ≡ true = ground arith in
      (
        s.total_suppressed,
        rw up refl,
        rw (up, e)
            (ap
              (λ (n : ℕ).
                record {
                  attempts = n;
                  suppressed = s.total_suppressed;
                  duration = pos now -ℤ pos t;
                }
                ∷ [])
              (omega arith)),
      )
  recovers s (m ∷ ms) now t pos_attempts e =
      let (counts, attempts, started) = fail_counts s m in
      prepend s m ms now t (
        recovers (next_state s m) ms now t (omega (arith, attempts))
          (started ∙ ap (λ x. some (time_or m.at x)) e))

  -- An outage of one or more failed polls in a row, then a poll that succeeds: onRecovery is called
  -- once, with the number of failed polls, the time since the first of them, and as the number of
  -- suppressed failures exactly those for which onFailure was not called.
  pub outage_recovery :
      (last : ℕ) (m : Miss) (ms : List Miss) (now : ℕ)
      → let run = run_loop o (fresh o last) (map missed (m ∷ ms) ++ hit now ∷ []) in
        (k : ℕ) × (k + reports run.output ≡ length (m ∷ ms))
        × (recoveries run.output
            ≡ record { attempts = length (m ∷ ms); suppressed = k; duration = pos now -ℤ pos m.at }
              ∷ [])
  unfolding fresh
  outage_recovery last m ms now =
      let s = fresh o last in
      let (counts, attempts, started) = fail_counts s m in
      let (k, total, report) =
        prepend s m ms now m.at
          (recovers (next_state s m) ms now m.at (omega (arith, attempts)) started) in
      (
        k,
        omega (arith, total),
        report
            ∙ ap
                (λ (n : ℕ).
                  record { attempts = n; suppressed = k; duration = pos now -ℤ pos m.at } ∷ [])
                (omega arith),
      )

  -- Polls that fail with the error `key` that was reported last, at `t`, before the interval has passed.
  abbrev pub Repeats : Text → ℕ → Miss → Type 0
  Repeats key t m =
      (error_key m.failure ≡ key) × (leb_ℤ o.report_interval (pos m.at -ℤ pos t) ≡ false)

  fail_quiet :
      (s : Loop) (m : Miss)
      → s.reported ≡ true
      → Repeats s.last_error s.last_report m
      → let (s', out) = fail o s m.failure m.at (m.jitter s.backoff) in
        (reports out ≡ 0)
        × (s'.reported ≡ true)
        × (s'.last_error ≡ s.last_error)
        × (s'.last_report ≡ s.last_report)
  unfolding fail
  fail_quiet s m on (e, early) =
      let same : beq (error_key m.failure) s.last_error ≡ true = (beq_iff _ _).1 e in
      rw (on, same, early) (refl, refl, refl, refl)

  quiet_rounds :
      (s : Loop) (key : Text) (t : ℕ) (ms : List Miss)
      → s.reported ≡ true
      → s.last_error ≡ key
      → s.last_report ≡ t
      → All (Repeats key t) ms
      → reports (run_loop o s (map missed ms)).output ≡ 0
  unfolding run_loop turn
  quiet_rounds s key t [] on ek et h = refl
  quiet_rounds s key t (m ∷ ms) on ek et (h, hs) =
      let (none_here, on', ek', et') = fail_quiet s m on (h.0 ∙ sym ek, rw et h.1) in
      let rest = quiet_rounds (next_state s m) key t ms on' (ek' ∙ ek) (et' ∙ et) hs in
      let out = (fail o s m.failure m.at (m.jitter s.backoff)).1 in
      omega (
        arith,
        reports-append out (run_loop o (next_state s m) (map missed ms)).output,
        none_here,
        rest,
      )

  -- An outage whose failed polls all have the error of the first one, before the report interval has
  -- passed since that: onFailure is called once.
  pub single_report :
      (last : ℕ) (m : Miss) (ms : List Miss)
      → All (Repeats (error_key m.failure) m.at) ms
      → reports (run_loop o (fresh o last) (map missed (m ∷ ms))).output ≡ 1
  unfolding run_loop turn fail fresh
  single_report last m ms h = omega (
    arith,
    quiet_rounds (next_state (fresh o last) m) (error_key m.failure) m.at ms refl refl refl h,
  )
