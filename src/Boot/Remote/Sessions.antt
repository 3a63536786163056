-- ===== src/Boot/Remote/Sessions.antt =====
-- boot/remote.go: the layers of the remote configuration, each key over a session of its own.
use dilu_go_kit.Base.{[], Bool, true, if◌then◌else◌}
use dilu_go_kit.Base.Result.{Result, ok, err, ◌>>=◌}
use dilu_go_kit.Base.Text.{Text, beq, trim_space}
use dilu_go_kit.Boot.Config.{RegistryConfig}
use dilu_go_kit.Boot.Remote.{
  RemoteError, backend, Bytes, resolve_config_key, resolve_config_node_key, config_format_of,
  validate_remote_config_inputs,
}
use dilu_go_kit.Boot.Remote.Layers.{Viper, GetReply, fetched, tolerate, merge_config_layers}

-- What a session answers for a key: that it cannot be opened, or the reply of its store.
abbrev pub Session : Type 0
Session = Text → Result Text GetReply

-- fetchRemoteByKey
unfoldable pub fetch_remote_by_key : Session → Text → Result RemoteError Bytes
unfolding fetched
fetch_remote_by_key session key = elim (session key) [
  | err e ↦ err (backend e)
  | ok reply ↦ fetched reply
]

module _ {Cfg : Type 0} (v : Viper Cfg) (env : Text) (session : Session) (r : RegistryConfig) where
  unfoldable pub node_layer : Text → Result RemoteError Bytes
  unfolding fetch_remote_by_key resolve_config_node_key
  node_layer name =
      let key = resolve_config_node_key env r name in
      if beq key [] then ok [] else tolerate true (fetch_remote_by_key session key)

  -- mergeRemoteConfig, for a base that is not nil
  unfoldable pub merge_remote_config : Text → Cfg → (allow_missing : Bool) → Result RemoteError Cfg
  unfolding node_layer merge_config_layers config_format_of resolve_config_key
      validate_remote_config_inputs
  merge_remote_config service base allow =
      let name = trim_space service in
      validate_remote_config_inputs env r name >>= λ _.
      tolerate allow (fetch_remote_by_key session (resolve_config_key r name)) >>= λ shared.
      node_layer name >>= λ node. merge_config_layers v base (config_format_of r) shared node

  -- MergeRemoteConfigOptional
  abbrev pub merge_remote_config_optional : Text → Cfg → Result RemoteError Cfg
  merge_remote_config_optional service base = merge_remote_config service base true
