-- ===== src/Sdk/LeafOptions/Checked.antt =====
-- src/sdk/leaf_options.cpp: what options that pass the checks give a leaf.
use microtel.Prelude.{
  ℕ, ◌+◌, ◌≤◌, ◌≡◌, refl, ap, inl, inr, true, ◌||◌, if◌then◌else◌, ltb, List, [], ◌∷◌, ◌++◌, Option,
  none, some, length, arith, Bool-cases,
}
use microtel.Prelude.Bytes.{Bytes, bytes_eq, bytes_eq_iff, codes}
use microtel.Sdk.Record.{AttributeValue, KeyValue}
use microtel.Sdk.LeafWire.{LeafTimeMode}
use microtel.Sdk.LeafResource.{
  LeafResourceLayers, attribute_bytes, value_bytes, override, merge, names, layer, is_empty,
  with_id, with_service, merge_layers, resolve_leaf_resource, service_name_key, unknown_service,
}
use microtel.Sdk.LeafResource.Cost.{distinct}
use microtel.Sdk.LeafResource.Layers.{costs, resource_bytes}
use microtel.Sdk.LeafResource.Resolved.{resolve_leaf_resource_within_budget}
use microtel.Sdk.LeafReceiver.{
  LeafConfig, LeafReceiverOptions, LeafSettings, find_leaf, is_nil, max_leaf_id_bytes,
}
use microtel.Sdk.LeafReceiver.Identity.{static_settings, budget_for, budget_of_mode, effective_mode}
use microtel.Sdk.LeafReceiver.Ingest.{assign_leaf, assign_leaves}
use microtel.Sdk.LeafOptions.{
  ConfigError, table_bytes, check_keys, check_limits, ◌then_check◌, mode_or, check_budget,
  check_leaf, check_leaves, check_defaults, validate_leaf_receiver_options,
}

resource_bytes-override :
    (kv : KeyValue) (ms : List KeyValue)
    → resource_bytes (override kv ms) ≤ resource_bytes ms + attribute_bytes kv
unfolding resource_bytes override attribute_bytes
resource_bytes-override kv [] = omega arith
resource_bytes-override kv (m ∷ ms) =
    ground (arith, resource_bytes-override kv ms, bytes_eq_iff m.key kv.key)

-- What a layer of one text adds at most.
resource_bytes-layer :
    (m : List KeyValue) (key value : Bytes)
    → resource_bytes (merge m (layer key value)) ≤ resource_bytes m + length key + length value
unfolding merge attribute_bytes value_bytes
resource_bytes-layer m key value =
    let kv : KeyValue = record { key = key; value = AttributeValue.string value } in
    omega (arith, resource_bytes-override kv m)

resource_bytes-with_id :
    (layers : LeafResourceLayers) (m : List KeyValue)
    → resource_bytes (with_id layers m)
      ≤ resource_bytes m + length layers.id_key + length layers.leaf_id
resource_bytes-with_id layers m = elim (Bool-cases (is_empty layers.id_key)) [
  | inl e ↦ rw e (omega arith)
  | inr e ↦ rw e (resource_bytes-layer m layers.id_key layers.leaf_id)
]

resource_bytes-with_service :
    (m : List KeyValue)
    → resource_bytes (with_service m)
      ≤ resource_bytes m + length service_name_key + length unknown_service
resource_bytes-with_service m = elim (Bool-cases (names m service_name_key)) [
  | inl e ↦ rw e (omega arith)
  | inr e ↦ rw e (resource_bytes-layer m service_name_key unknown_service)
]

-- What the checks do not count: the id, and the placeholder of the service's name.
abbrev pub overhead : LeafResourceLayers → ℕ
overhead layers =
    length layers.id_key + length layers.leaf_id + length service_name_key + length unknown_service

fixed_bytes :
    (layers : LeafResourceLayers)
    → resource_bytes (merge_layers layers [])
      ≤ resource_bytes (merge layers.defaults layers.configured) + overhead layers
unfolding merge_layers merge
fixed_bytes layers =
    let m = merge layers.defaults layers.configured in
    omega (arith, resource_bytes-with_id layers m, resource_bytes-with_service (with_id layers m))

table_bytes-resource_bytes : (kvs : List KeyValue) → table_bytes kvs ≡ resource_bytes kvs
unfolding table_bytes resource_bytes
table_bytes-resource_bytes [] = refl
table_bytes-resource_bytes (kv ∷ kvs) = omega (arith, table_bytes-resource_bytes kvs)

-- A check that passes has passed both of its parts.
both_checked : (a b : Option ConfigError) → (a then_check b) ≡ none → (a ≡ none) × (b ≡ none)
both_checked none b h = (refl, h)
both_checked (some e) b h = absurd (ground arith)

check_budget_fits :
    (budget : ℕ) (resource : List KeyValue) (field : Bytes)
    → check_budget budget resource field ≡ none
    → table_bytes resource ≤ budget
unfolding check_budget
check_budget_fits budget resource field h = elim (Bool-cases (ltb budget (table_bytes resource))) [
  | inl e ↦ let h' = rw e at h in absurd (ground arith)
  | inr e ↦ ground arith
]

check_leaf-table_bytes :
    (o : LeafReceiverOptions) (id : Bytes) (leaf : LeafConfig)
    → check_leaf o id leaf ≡ none
    → table_bytes (merge o.leaf_defaults_resource leaf.resource)
      ≤ budget_of_mode o (mode_or o leaf.time_mode)
unfolding check_leaf
check_leaf-table_bytes o id leaf h =
    let budget = budget_of_mode o (mode_or o leaf.time_mode) in
    let merged = merge o.leaf_defaults_resource leaf.resource in
    let field = codes "concentrator.leaves." ++ (id ++ codes ".resource") in
    elim (Bool-cases (is_nil id || ltb max_leaf_id_bytes (length id))) [
      | inl e ↦ let h' = rw e at h in absurd (ground arith)
      | inr e ↦
          check_budget_fits budget merged field
            (both_checked (check_keys leaf.resource field o.leaf_id_attribute)
              (check_budget budget merged field) (rw e at h)).1
    ]

find_leaf-assign_leaf :
    (id key : Bytes) (config : LeafConfig) (known : List (Bytes × LeafConfig))
    → find_leaf id (assign_leaf key config known)
      ≡ (if bytes_eq key id then some config else find_leaf id known)
unfolding find_leaf assign_leaf
find_leaf-assign_leaf id key config [] = refl
find_leaf-assign_leaf id key config (l ∷ ls) = ground (
  arith,
  find_leaf-assign_leaf id key config ls,
  bytes_eq_iff l.0 key,
  bytes_eq_iff l.0 id,
  bytes_eq_iff key id,
)

-- Every leaf that the receiver knows passed the check under its own id.
assign_leaf_checked :
    (o : LeafReceiverOptions) (id key : Bytes) (config c : LeafConfig)
    (known : List (Bytes × LeafConfig))
    → check_leaf o key config ≡ none
    → ((d : LeafConfig) → find_leaf id known ≡ some d → check_leaf o id d ≡ none)
    → find_leaf id (assign_leaf key config known) ≡ some c
    → check_leaf o id c ≡ none
assign_leaf_checked o id key config c known e h f =
    let f' = rw (find_leaf-assign_leaf id key config known) at f in
    elim (Bool-cases (bytes_eq key id)) [
      | inl k ↦
          let same : config ≡ c = ground (arith, rw k at f') in
          let here : key ≡ id = (bytes_eq_iff key id).0 k in rw (← here, ← same) e
      | inr k ↦ h c (rw k at f')
    ]

check_leaves-find_leaf :
    (o : LeafReceiverOptions) (id : Bytes) (c : LeafConfig) (ls known : List (Bytes × LeafConfig))
    → check_leaves o ls ≡ none
    → ((d : LeafConfig) → find_leaf id known ≡ some d → check_leaf o id d ≡ none)
    → find_leaf id (assign_leaves ls known) ≡ some c
    → check_leaf o id c ≡ none
unfolding check_leaves assign_leaves
check_leaves-find_leaf o id c [] known e h f = h c f
check_leaves-find_leaf o id c (l ∷ ls) known e h f =
    let parts = both_checked (check_leaf o l.0 l.1) (check_leaves o ls) e in
    check_leaves-find_leaf o id c ls (assign_leaf l.0 l.1 known) parts.1
      (λ d g. assign_leaf_checked o id l.0 l.1 d known parts.0 h g) f

mode_or-effective_mode :
    (o : LeafReceiverOptions) (c : LeafConfig)
    → effective_mode o (static_settings (some c)) ≡ mode_or o c.time_mode
unfolding effective_mode
mode_or-effective_mode o c = go c.time_mode
  where
    go :
        (m : Option LeafTimeMode)
        → (elim m [ none ↦ o.default_time_mode | some mode ↦ some mode ]) ≡ mode_or o m
    go none = refl
    go (some mode) = refl

-- The layers of a leaf with these settings.
abbrev pub layers_of :
    LeafReceiverOptions → Bytes → LeafSettings → List KeyValue → LeafResourceLayers
layers_of o id s declared = record {
  defaults = o.leaf_defaults_resource;
  declared = declared;
  configured = s.resource;
  id_key = o.leaf_id_attribute;
  leaf_id = id;
  budget = budget_for o s;
}

-- What the receiver knows of a leaf from the options alone, listed there or not.
abbrev pub settings_of : LeafReceiverOptions → Bytes → LeafSettings
settings_of o id = static_settings (find_leaf id (assign_leaves o.leaves []))

-- Settings whose table, above the defaults, fits the budget of their mode.
abbrev Fits : LeafReceiverOptions → LeafSettings → Type 0
Fits o s = table_bytes (merge o.leaf_defaults_resource s.resource) ≤ budget_for o s

check_defaults-Fits :
    (o : LeafReceiverOptions) → check_defaults o ≡ none → Fits o (static_settings none)
unfolding check_defaults budget_for effective_mode merge
check_defaults-Fits o h =
    let field = codes "concentrator.leaf_defaults.resource" in
    let budget = budget_of_mode o o.default_time_mode in
    check_budget_fits budget o.leaf_defaults_resource field
      (both_checked (check_keys o.leaf_defaults_resource field o.leaf_id_attribute)
        (check_budget budget o.leaf_defaults_resource field) h).1

check_leaf-Fits :
    (o : LeafReceiverOptions) (id : Bytes) (c : LeafConfig)
    → check_leaf o id c ≡ none
    → Fits o (static_settings (some c))
unfolding budget_for
check_leaf-Fits o id c h =
    let mode = ap (budget_of_mode o) (mode_or-effective_mode o c) in
    omega (arith, check_leaf-table_bytes o id c h, mode)

validated-Fits :
    (o : LeafReceiverOptions) (id : Bytes)
    → validate_leaf_receiver_options true o ≡ none
    → Fits o (settings_of o id)
unfolding validate_leaf_receiver_options find_leaf
validated-Fits o id v = go (find_leaf id (assign_leaves o.leaves [])) refl
  where
    first : ((check_limits o then_check check_defaults o) ≡ none) × (check_leaves o o.leaves ≡ none)
    first = both_checked (check_limits o then_check check_defaults o) (check_leaves o o.leaves) v

    go :
        (found : Option LeafConfig)
        → find_leaf id (assign_leaves o.leaves []) ≡ found
        → Fits o (static_settings found)
    go none f = check_defaults-Fits o (both_checked (check_limits o) (check_defaults o) first.0).1
    go (some c) f =
        check_leaf-Fits o id c
          (check_leaves-find_leaf o id c o.leaves [] first.1 (λ d g. absurd (ground arith)) f)

-- With options that `Build()` accepts, whose defaults name each key once, a leaf whose settings
-- come from the options alone, listed in them or not, gets a Resource of at most its budget and the
-- overhead that the checks do not count, whatever its payload declares.
pub validated_within_budget :
    (o : LeafReceiverOptions) (id : Bytes) (declared : List KeyValue)
    → validate_leaf_receiver_options true o ≡ none
    → distinct (costs o.leaf_defaults_resource) ≡ true
    → let layers = layers_of o id (settings_of o id) declared in
      resource_bytes (resolve_leaf_resource layers).resource ≤ layers.budget + overhead layers
validated_within_budget o id declared v d =
    let layers = layers_of o id (settings_of o id) declared in
    omega (
      arith,
      resolve_leaf_resource_within_budget layers d,
      fixed_bytes layers,
      table_bytes-resource_bytes (merge layers.defaults layers.configured),
      validated-Fits o id v,
    )
