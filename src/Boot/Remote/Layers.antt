-- ===== src/Boot/Remote/Layers.antt =====
-- boot/remote.go: the layers of the remote configuration, out of a store. viper and json.Marshal are
-- parameters, and a configuration is whatever they encode; a
-- value of the settings is carried as its printed text, without its type; destinations and stores are not nil.
pub mod Merging
use dilu_go_kit.Base.{
  ◌≡◌, refl, List, [], ◌∷◌, ◌++◌, Bool, true, false, ◌&&◌, not, if◌then◌else◌, ltb,
}
use dilu_go_kit.Base.Result.{Result, ok, err, ◌>>=◌}
use dilu_go_kit.Base.Text.{Text, beq, trim_space}
use dilu_go_kit.Boot.Config.{RegistryConfig}
use dilu_go_kit.Boot.Remote.{
  RemoteError, not_found, backend, parse, merge_map, decode, encode, sensitive, in_service, in_node,
  Bytes, validate_remote_config_payload, resolve_config_key, resolve_config_node_key,
  config_format_of, validate_remote_config_inputs,
}
use dilu_go_kit.Boot.Remote.Settings.{Settings, sensitive_remote_path}

-- What viper and json.Marshal do: ReadConfig with AllSettings of data in a format, the settings of
-- a configuration, MergeConfigMap, and Unmarshal over a configuration. An error is its text.
pub record Viper (Cfg : Type 0) : Type 0 where
  pub read_config : (format : Text) → Bytes → Result Text Settings
  pub settings_of : Cfg → Result Text Settings
  pub merge_config : (base layer : Settings) → Result Text Settings
  pub unmarshal : Settings → Cfg → Result Text Cfg

-- The reply of KVStore.Get: registry.ErrKeyNotFound, or another error.
pub data GetReply : Type 0 where
  missing : GetReply
  failed : Text → GetReply
  stored : Bytes → GetReply

abbrev pub lift {ℓ} : {A : Type ℓ} → (Text → RemoteError) → Result Text A → Result RemoteError A
lift wrap (ok a) = ok a
lift wrap (err e) = err (wrap e)

abbrev pub within {ℓ} :
    {A : Type ℓ} → (RemoteError → RemoteError) → Result RemoteError A → Result RemoteError A
within wrap (ok a) = ok a
within wrap (err e) = err (wrap e)

-- The closure `get` of MergeRemoteConfigFromStore, and the first checks of LoadRemoteConfigFromStore.
unfoldable pub fetched : GetReply → Result RemoteError Bytes
unfolding validate_remote_config_payload
fetched missing = err not_found
fetched (failed e) = err (backend e)
fetched (stored payload) = validate_remote_config_payload payload >>= λ _. ok payload

-- Missing data, where that is allowed, is no data.
abbrev pub tolerate : Bool → Result RemoteError Bytes → Result RemoteError Bytes
tolerate allow (ok payload) = ok payload
tolerate allow (err not_found) = if allow then ok [] else err not_found
tolerate allow (err e) = err e

module _ {Cfg : Type 0} (v : Viper Cfg) where
  -- A layer without sensitive values.
  abbrev pub checked : Settings → Result RemoteError Settings
  checked layer =
      let path = sensitive_remote_path layer in
      if beq path [] then ok layer else err (sensitive path)

  abbrev pub read_layer : (format : Text) → Bytes → Result RemoteError Settings
  read_layer format payload = lift parse (v.read_config format payload) >>= λ layer. checked layer

  -- unmarshalBytes
  unfoldable pub unmarshal_bytes : Bytes → (format : Text) → Cfg → Result RemoteError Cfg
  unmarshal_bytes payload format cfg =
      read_layer format payload >>= λ layer. lift decode (v.unmarshal layer cfg)

  -- mergeLayer
  unfoldable pub merge_layer : Settings → Bytes → (format : Text) → Result RemoteError Settings
  merge_layer merged payload format =
      read_layer format payload >>= λ layer. lift merge_map (v.merge_config merged layer)

  abbrev pub add_layer :
      (RemoteError → RemoteError) → (format : Text) → Bytes → Settings → Result RemoteError Settings
  unfolding merge_layer
  add_layer wrap format [] merged = ok merged
  add_layer wrap format (b ∷ payload) merged = within wrap (merge_layer merged (b ∷ payload) format)

  -- mergeConfigLayers. It returns the new configuration; after an error there is none.
  unfoldable pub merge_config_layers :
      Cfg → (format : Text) → (service node : Bytes) → Result RemoteError Cfg
  unfolding add_layer
  merge_config_layers base format service node = lift encode (v.settings_of base) >>= λ local.
      add_layer in_service format service local >>= λ shared.
      add_layer in_node format node shared >>= λ merged. lift decode (v.unmarshal merged base)

  module _ (env : Text) (get : Text → GetReply) (r : RegistryConfig) where
    -- LoadRemoteConfigFromStore
    unfoldable pub load_remote_config_from_store : Text → Cfg → Result RemoteError Cfg
    unfolding fetched unmarshal_bytes config_format_of resolve_config_key
        validate_remote_config_inputs
    load_remote_config_from_store service cfg =
        let name = trim_space service in
        validate_remote_config_inputs env r name >>= λ _.
        fetched (get (resolve_config_key r name)) >>= λ payload.
        unmarshal_bytes payload (config_format_of r) cfg

    -- The node layer: no data where there is no node or no such key.
    unfoldable pub node_data : Text → Result RemoteError Bytes
    unfolding fetched resolve_config_node_key
    node_data name =
        let key = resolve_config_node_key env r name in
        if beq key [] then ok [] else tolerate true (fetched (get key))

    -- MergeRemoteConfigFromStore
    unfoldable pub merge_remote_config_from_store :
        Text → Cfg → (allow_missing : Bool) → Result RemoteError Cfg
    unfolding node_data merge_config_layers config_format_of resolve_config_key
        validate_remote_config_inputs
    merge_remote_config_from_store service base allow =
        let name = trim_space service in
        validate_remote_config_inputs env r name >>= λ _.
        tolerate allow (fetched (get (resolve_config_key r name))) >>= λ shared.
        node_data name >>= λ node. merge_config_layers base (config_format_of r) shared node
