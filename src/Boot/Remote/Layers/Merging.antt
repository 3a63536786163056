-- ===== src/Boot/Remote/Layers/Merging.antt =====
-- What the merged configuration is made of.
use dilu_go_kit.Base.{
  ◌≤◌, ◌≡◌, refl, sym, ◌∙◌, ap, ◌⊎◌, inl, inr, List, [], ◌∷◌, Bool, true, false, ltb, length, arith,
  Bool-cases,
}
use dilu_go_kit.Base.Result.{Result, ok, err, >>=-eq-ok, ok_inj}
use dilu_go_kit.Base.Text.{Text, beq, beq_iff, trim_space}
use dilu_go_kit.Boot.Config.{RegistryConfig}
use dilu_go_kit.Boot.Remote.{
  RemoteError, parse, merge_map, decode, encode, in_service, in_node, Bytes,
  validate_remote_config_payload, resolve_config_key, resolve_config_node_key, config_format_of,
  validate_remote_config_inputs, too_large,
}
use dilu_go_kit.Boot.Remote.Settings.{Settings, sensitive_remote_path, is_sensitive_config_path}
use dilu_go_kit.Boot.Remote.Settings.Search.{Holds, clean_search}
use dilu_go_kit.Boot.Remote.Layers.{
  Viper, GetReply, missing, failed, stored, lift, within, fetched, tolerate, checked, read_layer,
  merge_layer, add_layer, merge_config_layers, node_data, merge_remote_config_from_store,
}

-- The data of a layer: what is stored, within the limit, or none where the key is missing and may be.
abbrev pub Supplied : Bool → GetReply → Bytes → Type 0
Supplied allow reply payload =
    ((reply ≡ stored payload) × (length payload ≤ 4_194_304))
    ⊎ ((allow ≡ true) × (reply ≡ missing) × (payload ≡ []))

fetched-stored :
    (b : Bytes)
    → ((fetched (stored b) ≡ ok b) × (length b ≤ 4_194_304)) ⊎ (fetched (stored b) ≡ err too_large)
unfolding fetched validate_remote_config_payload
fetched-stored b = elim (Bool-cases (ltb 4_194_304 (length b))) [
  | inl h ↦ inr (rw h refl)
  | inr h ↦ inl (rw h refl, ground arith)
]

tolerated :
    (allow : Bool) (reply : GetReply) (payload : Bytes)
    → tolerate allow (fetched reply) ≡ ok payload
    → Supplied allow reply payload
unfolding fetched
tolerated true missing payload h = inr (refl, refl, sym (ok_inj h))
tolerated false missing payload h = cc
tolerated allow (failed e) payload h = cc
tolerated allow (stored b) payload h = elim (fetched-stored b) [
  | inl (e, le) ↦
      let same : b ≡ payload = ok_inj (ap (tolerate allow) (sym e) ∙ h) in
      inl (ap stored same, rw⁻¹ same le)
  | inr e ↦
      let wrong : tolerate allow (err too_large) ≡ ok payload = ap (tolerate allow) (sym e) ∙ h in
      cc
]

-- No sensitive value is set in a layer.
abbrev pub Clean : Settings → Type 0
Clean layer =
    (path : List Text) (text : Text)
    → Holds layer path text
    → is_sensitive_config_path path ≡ true
    → text ≡ []

module _ {Cfg : Type 0} (v : Viper Cfg) where
  -- A layer in its place: no data changes nothing, else the data is read and merged.
  abbrev pub Layered : Text → Bytes → (before after : Settings) → Type 0
  Layered format payload before after =
      ((payload ≡ []) × (after ≡ before))
      ⊎ ((layer : Settings) × (v.read_config format payload ≡ ok layer)
          × Clean layer
          × (v.merge_config before layer ≡ ok after))

  lift-ok :
      {A : Type 0} (wrap : Text → RemoteError) (r : Result Text A) {a : A}
      → lift wrap r ≡ ok a
      → r ≡ ok a
  lift-ok wrap (ok b) h = cc
  lift-ok wrap (err e) h = cc

  within-ok :
      {A : Type 0} (wrap : RemoteError → RemoteError) (r : Result RemoteError A) {a : A}
      → within wrap r ≡ ok a
      → r ≡ ok a
  within-ok wrap (ok b) h = cc
  within-ok wrap (err e) h = cc

  checked-ok :
      (layer : Settings) {found : Settings}
      → checked v layer ≡ ok found
      → (layer ≡ found) × Clean layer
  checked-ok layer h = elim (Bool-cases (beq (sensitive_remote_path layer) [])) [
    | inl e ↦ (ok_inj (rw e at h), clean_search layer ((beq_iff _ _).0 e))
    | inr e ↦ let wrong = rw e at h in cc
  ]

  layered :
      (wrap : RemoteError → RemoteError) (format : Text) (payload : Bytes) (before : Settings)
      {after : Settings}
      → add_layer v wrap format payload before ≡ ok after
      → Layered format payload before after
  unfolding add_layer merge_layer
  layered wrap format [] before h = inl (refl, sym (ok_inj h))
  layered wrap format (b ∷ payload) before h =
      let step = within-ok wrap (merge_layer v before (b ∷ payload) format) h in
      let (found, was_read, merged) =
        >>=-eq-ok (λ l. lift merge_map (v.merge_config before l))
          (read_layer v format (b ∷ payload)) step in
      let (layer, parsed, clean) =
        >>=-eq-ok (checked v) (lift parse (v.read_config format (b ∷ payload))) was_read in
      let (same, no_secret) = checked-ok layer clean in
      inr (
        layer,
        lift-ok parse (v.read_config format (b ∷ payload)) parsed,
        no_secret,
        ap (v.merge_config before) same ∙ lift-ok merge_map (v.merge_config before found) merged,
      )

  -- The data of the node: none without a node.
  abbrev pub NodeData : Text → (Text → GetReply) → Bytes → Type 0
  NodeData key get payload = ((key ≡ []) × (payload ≡ [])) ⊎ Supplied true (get key) payload

  module _ (env : Text) (get : Text → GetReply) (r : RegistryConfig) where
    node_supplied :
        (name : Text) {payload : Bytes}
        → node_data v env get r name ≡ ok payload
        → NodeData (resolve_config_node_key env r name) get payload
    unfolding node_data
    node_supplied name {payload} h =
        elim (Bool-cases (beq (resolve_config_node_key env r name) [])) [
          | inl e ↦ inl ((beq_iff _ _).0 e, sym (ok_inj (rw e at h)))
          | inr e ↦
              inr (tolerated true (get (resolve_config_node_key env r name)) payload (rw e at h))
        ]

    -- A configuration that MergeRemoteConfigFromStore leaves behind without an error comes about like
    -- this. The service name, trimmed, the key and the node are valid. The service layer is what is
    -- stored under the key of the service, or nothing where that is missing and may be; the node layer
    -- is what is stored under the key of the node, or nothing where there is no node or no such key;
    -- both are at most 4 MiB. The service layer is merged into the local settings, the node layer
    -- into the outcome, and this decoded over the local configuration; and no layer sets a sensitive
    -- value, however deep.
    pub merged_layers :
        (service : Text) (base : Cfg) (allow : Bool) (merged : Cfg)
        → merge_remote_config_from_store v env get r service base allow ≡ ok merged
        → let name = trim_space service in
          let format = config_format_of r in
          (validate_remote_config_inputs env r name ≡ ok tt)
          × (shared : Bytes) × (node : Bytes) × (local : Settings) × (with_service : Settings)
          × (with_node : Settings) × Supplied allow (get (resolve_config_key r name)) shared
          × NodeData (resolve_config_node_key env r name) get node
          × (v.settings_of base ≡ ok local)
          × Layered format shared local with_service
          × Layered format node with_service with_node
          × (v.unmarshal with_node base ≡ ok merged)
    unfolding merge_remote_config_from_store merge_config_layers
    merged_layers service base allow merged h =
        let name = trim_space service in
        let format = config_format_of r in
        let key = resolve_config_key r name in
        let (u, valid, fetching) = >>=-eq-ok _ (validate_remote_config_inputs env r name) h in
        let (shared, is_shared, noding) =
          >>=-eq-ok _ (tolerate allow (fetched (get key))) fetching in
        let (node, is_node, merging) = >>=-eq-ok _ (node_data v env get r name) noding in
        let (local, is_local, adding) = >>=-eq-ok _ (lift encode (v.settings_of base)) merging in
        let (with_service, first, more) =
          >>=-eq-ok _ (add_layer v in_service format shared local) adding in
        let (with_node, second, last) =
          >>=-eq-ok _ (add_layer v in_node format node with_service) more in
        (
          valid,
          shared,
          node,
          local,
          with_service,
          with_node,
          tolerated allow (get key) shared is_shared,
          node_supplied name is_node,
          lift-ok encode (v.settings_of base) is_local,
          layered in_service format shared local first,
          layered in_node format node with_service second,
          lift-ok decode (v.unmarshal with_node base) last,
        )
