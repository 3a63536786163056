-- ===== src/Boot/Reload/History.antt =====
-- A reload starts from the local configuration, so what came before it is forgotten.
use dilu_go_kit.Base.{
  ◌≡◌, refl, ◌⊎◌, inl, inr, List, [], ◌∷◌, Option, some, none, true, All, sym, ◌∙◌,
}
use dilu_go_kit.Base.Float.{Float64}
use dilu_go_kit.Base.Result.{Result, ok, err}
use dilu_go_kit.Base.Text.{Text}
use dilu_go_kit.Boot.Config.{Config}
use dilu_go_kit.Boot.Config.Environment.{apply_env_overrides}
use dilu_go_kit.Boot.Remote.{RemoteError}
use dilu_go_kit.Boot.Remote.Sessions.{Session}
use dilu_go_kit.Boot.Reload.{
  Static, static_of, App, Report, base_of, Watch, run_validators, validate_runtime_config_change,
  publish, consider, merged, reload, reload_all,
}
use dilu_go_kit.Boot.Reload.Publishing.{Harmless, Published, reload_all-Published}

module _ {f : Float64} (w : Watch f) where
  -- The two ends agree: on the new configuration, or on leaving the old one.
  abbrev pub Agree : (a b : App f) → (from_a from_b : App f × List Report) → Type 0
  Agree a b from_a from_b =
      (from_a.1 ≡ from_b.1)
      × ((from_a.0.config ≡ from_b.0.config) ⊎ ((from_a.0 ≡ a) × (from_b.0 ≡ b)))

  publish-Agree :
      (a b : App f) (r : Result Text (Config f)) → Agree a b (publish w a r) (publish w b r)
  unfolding publish
  publish-Agree a b (err e) = (refl, inr (refl, refl))
  publish-Agree a b (ok c) = (refl, inl refl)

  consider-Agree :
      (a b : App f) (c : Config f) (r : Result Report (Unit {0}))
      → Agree a b (consider w a c r) (consider w b c r)
  unfolding consider
  consider-Agree a b c (err e) = (refl, inr (refl, refl))
  consider-Agree a b c (ok u) = publish-Agree a b (run_validators w.callbacks c)

  same_verdict :
      (a b next : Config f)
      → static_of a ≡ static_of b
      → validate_runtime_config_change w b next ≡ validate_runtime_config_change w a next
  unfolding validate_runtime_config_change
  same_verdict a b next h = rw h refl

  merged-Agree :
      (a b : App f)
      → static_of a.config ≡ static_of b.config
      → (r : Result RemoteError (Config f)) → Agree a b (merged w a r) (merged w b r)
  unfolding merged
  merged-Agree a b h (err e) = (refl, inr (refl, refl))
  merged-Agree a b h (ok c) =
      let next = apply_env_overrides w.host c in
      rw (same_verdict a.config b.config next h)
        (consider-Agree a b next (validate_runtime_config_change w a.config next))

  publish-local :
      (a : App f) (r : Result Text (Config f)) → (publish w a r).0.local_config ≡ a.local_config
  unfolding publish
  publish-local a (err e) = refl
  publish-local a (ok c) = refl

  consider-local :
      (a : App f) (c : Config f) (r : Result Report (Unit {0}))
      → (consider w a c r).0.local_config ≡ a.local_config
  unfolding consider
  consider-local a c (err e) = refl
  consider-local a c (ok u) = publish-local a (run_validators w.callbacks c)

  merged-local :
      (a : App f) (r : Result RemoteError (Config f))
      → (merged w a r).0.local_config ≡ a.local_config
  unfolding merged
  merged-local a (err e) = refl
  merged-local a (ok c) =
      let next = apply_env_overrides w.host c in
      consider-local a next (validate_runtime_config_change w a.config next)

  reload_all-local :
      (a : App f) (ss : List Session) → (reload_all w a ss).local_config ≡ a.local_config
  unfolding reload_all reload
  reload_all-local a [] = refl
  reload_all-local a (s ∷ ss) = reload_all-local (reload w a s).0 ss ∙ merged-local a _

  local_base :
      (a : App f) (local : Option (Config f)) (l : Config f) → local ≡ some l → base_of a local ≡ l
  local_base a none l h = cc
  local_base a (some c) l h = cc

  reload-Agree :
      (a b : App f) (l : Config f) (s : Session)
      → a.local_config ≡ some l
      → b.local_config ≡ some l
      → static_of a.config ≡ static_of b.config
      → Agree a b (reload w a s) (reload w b s)
  unfolding reload
  reload-Agree a b l s ha hb h =
      rw (local_base a a.local_config l ha, local_base b b.local_config l hb) (merged-Agree a b h _)

  -- With a local configuration, what a change of the remote configuration comes to does not depend
  -- on the changes before it: after any of them the same answers of the store give the same reports,
  -- and the same configuration or, in both cases, none. It supposes what keeps the startup fields:
  -- a valid configuration at the start, that the comparison of the startup fields accepts equal ones
  -- alone, and callbacks of OnConfigChange that leave the configuration as it is.
  pub history_free :
      (sound : (a b : Static f) → w.deep_equal a b ≡ true → a ≡ b)
      → All (Harmless f) w.callbacks
      → (a : App f) (l : Config f) (earlier : List Session) (s : Session) → a.local_config ≡ some l
      → Published w (static_of a.config) a.config
      → let b = reload_all w a earlier in Agree a b (reload w a s) (reload w b s)
  history_free sound harmless a l earlier s h start =
      let kept = reload_all-Published w sound harmless (static_of a.config) a earlier start in
      reload-Agree a (reload_all w a earlier) l s h (reload_all-local a earlier ∙ h) (sym (kept.1))
