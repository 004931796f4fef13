-- ===== src/Sdk/LeafOptions/Tests.antt =====
-- Options that pass the checks, a leaf whose table takes up its whole budget, and one that does not
-- pass.
use microtel.Prelude.{◌+◌, ◌≤◌, ◌≡◌, refl, true, List, [], ◌∷◌, none, some}
use microtel.Prelude.Int.{pos}
use microtel.Prelude.Bytes.{Bytes, codes, bytes_eq}
use microtel.Sdk.Record.{AttributeValue, KeyValue}
use microtel.Sdk.LeafWire.{is_reserved, starts_with}
use microtel.Sdk.LeafResource.{
  LeafResourceLayers, find_cost, put_cost, total_with, charge, has_cost, override, merge, names,
  value_bytes, attribute_bytes, charge_each, charge_fixed_layers, is_pinned, admit_declared,
  merge_layers, resolve_leaf_resource,
}
use microtel.Sdk.LeafResource.Cost.{distinct}
use microtel.Sdk.LeafResource.Layers.{costs, resource_bytes}
use microtel.Sdk.LeafReceiver.{UnknownLeafPolicy, LeafConfig, LeafReceiverOptions, find_leaf}
use microtel.Sdk.LeafReceiver.Identity.{static_settings}
use microtel.Sdk.LeafReceiver.Ingest.{assign_leaf, assign_leaves}
use microtel.Sdk.LeafOptions.{
  table_bytes, check_keys, check_limits, check_budget, check_leaf, check_leaves, check_defaults,
  validate_leaf_receiver_options,
}
use microtel.Sdk.LeafOptions.Checked.{layers_of, settings_of, overhead, validated_within_budget}

abbrev text : Bytes → Bytes → KeyValue
text key v = record { key = key; value = AttributeValue.string v }

abbrev leaf : LeafConfig
leaf = record { time_mode = none; resource = text (codes "site") (codes "north") ∷ [] }

abbrev options : Bytes → LeafReceiverOptions
options id_key = record {
  max_payload_bytes = 100;
  max_spans_per_payload = 10;
  max_leaves = 4;
  max_leaf_resource_bytes = 9;
  max_node_resource_bytes = 100;
  leaf_idle_timeout = pos 60;
  unknown_leaf = UnknownLeafPolicy.accept;
  leaf_id_attribute = id_key;
  default_time_mode = none;
  max_sync_age = pos 60;
  max_clock_skew = pos 60;
  boot_anchor_window = pos 60;
  leaf_defaults_resource = [];
  leaves = (codes "7", leaf) ∷ [];
  resolver = none;
}

valid : validate_leaf_receiver_options true (options (codes "id")) ≡ none
unfolding validate_leaf_receiver_options check_limits check_defaults check_leaves check_leaf
    check_budget check_keys table_bytes attribute_bytes value_bytes merge override is_reserved
    starts_with bytes_eq
valid = refl

-- A configured Resource may not name the id.
names_the_id :
    validate_leaf_receiver_options true (options (codes "site"))
    ≡ some (record { field = codes "concentrator.leaves.7.resource" })
unfolding validate_leaf_receiver_options check_limits check_defaults check_leaves check_leaf
    check_budget check_keys table_bytes attribute_bytes value_bytes merge override is_reserved
    starts_with bytes_eq
names_the_id = refl

-- The budget is 9, and the id and the placeholder come on top of it.
over_budget :
    resource_bytes
      (resolve_leaf_resource
        (layers_of (options (codes "id")) (codes "7") (static_settings (some leaf)) [])).resource
    ≡ 39
unfolding resource_bytes resolve_leaf_resource merge_layers merge override names admit_declared
    is_pinned is_reserved starts_with charge_fixed_layers charge_each charge has_cost total_with
    put_cost find_cost attribute_bytes value_bytes bytes_eq
over_budget = refl

known : find_leaf (codes "7") (assign_leaves (options (codes "id")).leaves []) ≡ some leaf
unfolding find_leaf assign_leaves assign_leaf bytes_eq
known = refl

defaults_distinct : distinct (costs []) ≡ true
unfolding distinct costs
defaults_distinct = refl

abbrev declared : List KeyValue
declared = text (codes "os") (codes "rtos") ∷ []

-- A leaf that the options list, and one that they do not.
abbrev layers_at : Bytes → LeafResourceLayers
layers_at id = layers_of (options (codes "id")) id (settings_of (options (codes "id")) id) declared

validated_within_budget_example :
    resource_bytes (resolve_leaf_resource (layers_at (codes "7"))).resource
    ≤ (layers_at (codes "7")).budget + overhead (layers_at (codes "7"))
validated_within_budget_example =
    validated_within_budget (options (codes "id")) (codes "7") declared valid defaults_distinct

unlisted_leaf :
    resource_bytes (resolve_leaf_resource (layers_at (codes "8"))).resource
    ≤ (layers_at (codes "8")).budget + overhead (layers_at (codes "8"))
unlisted_leaf =
    validated_within_budget (options (codes "id")) (codes "8") declared valid defaults_distinct
