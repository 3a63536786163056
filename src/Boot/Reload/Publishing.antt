-- ===== src/Boot/Reload/Publishing.antt =====
-- What every configuration that is published while the program runs has in common.
use dilu_go_kit.Base.{
  ◌≡◌, refl, List, [], ◌∷◌, Option, none, some, true, All, Bool-cases, sym, ◌∙◌, inl, inr,
}
use dilu_go_kit.Base.Float.{Float64}
use dilu_go_kit.Base.Result.{Result, ok, err, ok_inj}
use dilu_go_kit.Base.Text.{Text}
use dilu_go_kit.Boot.Config.{Config}
use dilu_go_kit.Boot.Config.Checks.{validate}
use dilu_go_kit.Boot.Config.Environment.{apply_env_overrides, apply_env_overrides-Pinned, Pinned}
use dilu_go_kit.Boot.Remote.{RemoteError}
use dilu_go_kit.Boot.Remote.Sessions.{Session}
use dilu_go_kit.Boot.Reload.{
  Static, static_of, Validator, call_config_validator, run_validators, App, Watch, unless, validity,
  validate_runtime_config_change, publish, consider, merged, reload, reload_all,
}

-- A callback that leaves every configuration as it is.
abbrev pub Harmless : (f : Float64) → Option (Validator f) → Type 0
Harmless f fn = (c : Config f) → (call_config_validator fn c).1 ≡ c

unless-ok :
    {A : Type 0} (fault : Option Text) (rest : Result Text A) {a : A}
    → unless fault rest ≡ ok a
    → rest ≡ ok a
unless-ok none rest h = h
unless-ok (some e) rest h = cc

module _ {f : Float64} (w : Watch f) where
  -- The configuration is accepted by Validate, has the startup fields s, and follows the environment.
  abbrev pub Published : Static f → Config f → Type 0
  Published s c = (validate f w.library c ≡ ok tt) × (static_of c ≡ s) × Pinned w.host c

  validity-ok : (r : Result Text (Unit {0})) → validity r ≡ ok tt → r ≡ ok tt
  validity-ok (ok tt) h = refl
  validity-ok (err e) h = cc

  accepted_change :
      (current next : Config f)
      → validate_runtime_config_change w current next ≡ ok tt
      → (w.deep_equal (static_of current) (static_of next) ≡ true)
        × (validate f w.library next ≡ ok tt)
  unfolding validate_runtime_config_change
  accepted_change current next h =
      elim (Bool-cases (w.deep_equal (static_of current) (static_of next))) [
        | inl e ↦ (e, validity-ok (validate f w.library next) (rw e at h))
        | inr e ↦ let wrong = rw e at h in cc
      ]

  run_validators-ok :
      (fns : List (Option (Validator f))) (c : Config f)
      → All (Harmless f) fns
      → (left : Config f) → run_validators fns c ≡ ok left
      → left ≡ c
  unfolding run_validators
  run_validators-ok [] c hs left h = sym (ok_inj h)
  run_validators-ok (fn ∷ fns) c (harmless, hs) left h =
      run_validators-ok fns (call_config_validator fn c).1 hs left
        (unless-ok (call_config_validator fn c).0 _ h)
      ∙ harmless c

  module _ (sound : (a b : Static f) → w.deep_equal a b ≡ true → a ≡ b)
      (harmless : All (Harmless f) w.callbacks) (s : Static f) where
    publish-Published :
        (a : App f) (next : Config f) (r : Result Text (Config f))
        → Published s a.config
        → Published s next
        → ((left : Config f) → r ≡ ok left → left ≡ next)
        → Published s (publish w a r).0.config
    unfolding publish
    publish-Published a next (err e) before after same = before
    publish-Published a next (ok c) before after same = let e : c ≡ next = same c refl in rw e after

    consider-Published :
        (a : App f) (next : Config f) (r : Result _ (Unit {0}))
        → validate_runtime_config_change w a.config next ≡ r
        → Published s a.config
        → Pinned w.host next
        → Published s (consider w a next r).0.config
    unfolding consider validate_runtime_config_change
    consider-Published a next (err e) h before pinned = before
    consider-Published a next (ok tt) h before pinned =
        let (same, valid) = accepted_change a.config next h in
        publish-Published a next (run_validators w.callbacks next) before
          (valid, sym (sound _ _ same) ∙ before.1, pinned)
          (run_validators-ok w.callbacks next harmless)

    merged-Published :
        (a : App f) (r : Result RemoteError (Config f))
        → Published s a.config
        → Published s (merged w a r).0.config
    unfolding merged
    merged-Published a (err e) before = before
    merged-Published a (ok c) before =
        let next = apply_env_overrides w.host c in
        consider-Published a next (validate_runtime_config_change w a.config next) refl before
          (apply_env_overrides-Pinned w.host c)

    -- Whatever the remote store answers, one change after the other, the configuration that the
    -- program works with stays one that Validate accepts, with the startup fields (server, TLS
    -- policy, databases, Redis, gRPC, registry, telemetry, diagnostics) that it started with, and
    -- with the JWT secret and the notify URL of the environment where the environment has them: if
    -- it is such a configuration at the start, the comparison of the startup fields accepts equal
    -- ones alone, and the callbacks of OnConfigChange leave the configuration as it is.
    pub reload_all-Published :
        (a : App f) (sessions : List Session)
        → Published s a.config
        → Published s (reload_all w a sessions).config
    unfolding reload_all reload
    reload_all-Published a [] before = before
    reload_all-Published a (x ∷ xs) before =
        reload_all-Published (reload w a x).0 xs (merged-Published a _ before)
