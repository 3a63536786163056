-- ===== src/Tests/RemoteRuns.antt =====
-- A service layer, a missing node layer, and a layer with a password in it.
use dilu_go_kit.Base.{◌≡◌, refl, ◌⊎◌, List, [], ◌∷◌, true, false, if◌then◌else◌}
use dilu_go_kit.Base.Int.{pos}
use dilu_go_kit.Base.Result.{ok, err}
use dilu_go_kit.Base.Text.{
  Text, beq, codes, trim_space, is_space, len, contains, has_control, to_lower,
}
use dilu_go_kit.Registry.Keys.Backends.{has_dots, trim_slashes}
use dilu_go_kit.Boot.Config.{RegistryConfig}
use dilu_go_kit.Boot.Remote.{
  sensitive, in_service, config_key_prefix, resolve_config_key, resolve_config_node_key,
  config_format_of, validate_remote_config_inputs, Bytes, validate_remote_config_payload,
  drop_slashes,
}
use dilu_go_kit.Boot.Remote.Settings.{
  Settings, end, value, section, sensitive_remote_path, walk, is_sensitive_config_path,
}
use dilu_go_kit.Boot.Remote.Settings.Search.{Holds, Found, sensitive_search}
use dilu_go_kit.Boot.Remote.Layers.{
  Viper, GetReply, missing, stored, merge_remote_config_from_store, fetched, merge_layer, node_data,
  merge_config_layers,
}
use dilu_go_kit.Boot.Remote.Layers.Merging.{Supplied, NodeData, Layered, merged_layers}

abbrev with_password : Settings
with_password =
    value (codes "mode") (codes "release")
      (section (codes "Redis") (value (codes "Password") (codes "x") end) end)

found_password : sensitive_remote_path with_password ≡ codes "redis.password"
unfolding walk is_sensitive_config_path beq to_lower
found_password = refl

sensitive_search_example :
    ((sensitive_remote_path with_password ≡ [])
      × ((path : List Text) (text : Text)
          → Holds with_password path text
          → is_sensitive_config_path path ≡ true
          → text ≡ []))
    ⊎ Found with_password [] (sensitive_remote_path with_password)
sensitive_search_example = sensitive_search with_password

abbrev join : Settings → Settings → Settings
join end t = t
join (value k v s) t = value k v (join s t)
join (section k n s) t = section k n (join s t)

-- A configuration is its settings; data that starts with 1 has a password.
abbrev viper : Viper Settings
viper = record {
  read_config = λ f b.
      ok (if beq b (1 ∷ []) then with_password else value (codes "mode") (codes "debug") end);
  settings_of = λ c. ok c;
  merge_config = λ base layer. ok (join layer base);
  unmarshal = λ s c. ok s;
}

abbrev registry : RegistryConfig
registry = record {
  enable = true;
  endpoints = [];
  address = [];
  ttl = pos 0;
  dial_timeout = pos 0;
  deregister_critical_after = pos 0;
  prefix = [];
  config_key = [];
  config_node = codes "n1";
  config_format = [];
  tls_enable = false;
}

abbrev store : Bytes → Text → GetReply
store payload key = if beq key (codes "/config/api") then stored payload else missing

abbrev debug : Settings
debug = value (codes "mode") (codes "debug") end

accepted :
    merge_remote_config_from_store viper [] (store (2 ∷ [])) registry (codes " api") end false
    ≡ ok debug
unfolding merge_remote_config_from_store fetched merge_layer node_data merge_config_layers
    validate_remote_config_payload validate_remote_config_inputs resolve_config_key
    resolve_config_node_key config_key_prefix config_format_of drop_slashes trim_slashes has_dots
    walk is_sensitive_config_path beq trim_space is_space len contains has_control to_lower
accepted = refl

rejected :
    merge_remote_config_from_store viper [] (store (1 ∷ [])) registry (codes "api") end false
    ≡ err (in_service (sensitive (codes "redis.password")))
unfolding merge_remote_config_from_store fetched merge_layer node_data merge_config_layers
    validate_remote_config_payload validate_remote_config_inputs resolve_config_key
    resolve_config_node_key config_key_prefix config_format_of drop_slashes trim_slashes has_dots
    walk is_sensitive_config_path beq trim_space is_space len contains has_control to_lower
rejected = refl

merged_layers_example :
    let name = trim_space (codes " api") in
    let get = store (2 ∷ []) in
    (validate_remote_config_inputs [] registry name ≡ ok tt)
    × (shared : Bytes) × (node : Bytes) × (local : Settings) × (with_service : Settings)
    × (with_node : Settings) × Supplied false (get (resolve_config_key registry name)) shared
    × NodeData viper (resolve_config_node_key [] registry name) get node
    × (viper.settings_of end ≡ ok local)
    × Layered viper (config_format_of registry) shared local with_service
    × Layered viper (config_format_of registry) node with_service with_node
    × (viper.unmarshal with_node end ≡ ok debug)
merged_layers_example =
    merged_layers viper [] (store (2 ∷ [])) registry (codes " api") end false debug accepted
