-- ===== src/Sdk/LeafOptions.antt =====
-- src/sdk/leaf_options.cpp: what `Build()` refuses of the receiver's options. An error is the path of
-- the setting it names; its message is left out. `enabled` is an argument.
pub mod Checked
mod Tests
use microtel.Prelude.{
  ℕ, zero, ◌+◌, Bool, true, false, ◌&&◌, ◌||◌, ◌==◌, if◌then◌else◌, ltb, not, List, [], ◌∷◌, ◌++◌,
  Option, none, some, length,
}
use microtel.Prelude.Bytes.{Bytes, bytes_eq, codes}
use microtel.Prelude.Int.{ℤ, pos, ltb_ℤ}
use microtel.Sdk.Record.{KeyValue}
use microtel.Sdk.LeafWire.{LeafTimeMode, is_reserved}
use microtel.Sdk.LeafResource.{attribute_bytes, merge}
use microtel.Sdk.LeafReceiver.{LeafConfig, LeafReceiverOptions, max_leaf_id_bytes, is_nil}
use microtel.Sdk.LeafReceiver.Identity.{budget_of_mode}

pub record ConfigError : Type 0 where
  pub field : Bytes

-- `Bytes` of a table.
unfoldable pub table_bytes : List KeyValue → ℕ
table_bytes [] = 0
table_bytes (kv ∷ kvs) = attribute_bytes kv + table_bytes kvs

abbrev invalid : Bytes → Option ConfigError
invalid field = some (record { field = field })

check_keys : List KeyValue → Bytes → Bytes → Option ConfigError
check_keys [] field id_key = none
check_keys (kv ∷ kvs) field id_key =
    let rest = check_keys kvs field id_key in
    if is_reserved kv.key
    then invalid field
    else if not (is_nil id_key) && bytes_eq kv.key id_key
    then invalid field
    else rest

abbrev is_not_positive : ℤ → Bool
is_not_positive d = not (ltb_ℤ (pos 0) d)

check_limits : LeafReceiverOptions → Option ConfigError
check_limits o =
    if o.max_payload_bytes == 0
    then invalid (codes "concentrator.max_payload_bytes")
    else if o.max_spans_per_payload == 0
    then invalid (codes "concentrator.max_spans_per_payload")
    else if o.max_leaves == 0
    then invalid (codes "concentrator.max_leaves")
    else if is_not_positive o.leaf_idle_timeout
    then invalid (codes "concentrator.leaf_idle_timeout")
    else if is_not_positive o.max_sync_age
    then invalid (codes "concentrator.max_sync_age")
    else if is_not_positive o.max_clock_skew
    then invalid (codes "concentrator.max_clock_skew")
    else if is_not_positive o.boot_anchor_window
    then invalid (codes "concentrator.boot_anchor_window")
    else none

-- An error, or what is checked next.
infixl 5 ◌then_check◌
abbrev ◌then_check◌ : Option ConfigError → Option ConfigError → Option ConfigError
none then_check next = next
some error then_check next = some error

abbrev mode_or : LeafReceiverOptions → Option LeafTimeMode → Option LeafTimeMode
mode_or o none = o.default_time_mode
mode_or o (some mode) = some mode

check_budget : ℕ → List KeyValue → Bytes → Option ConfigError
check_budget budget resource field =
    if ltb budget (table_bytes resource) then invalid field else none

check_leaf : LeafReceiverOptions → Bytes → LeafConfig → Option ConfigError
check_leaf o id leaf =
    let field = codes "concentrator.leaves." ++ (id ++ codes ".resource") in
    let merged = merge o.leaf_defaults_resource leaf.resource in
    if is_nil id || ltb max_leaf_id_bytes (length id)
    then invalid (codes "concentrator.leaves")
    else check_keys leaf.resource field o.leaf_id_attribute
      then_check check_budget (budget_of_mode o (mode_or o leaf.time_mode)) merged field

check_leaves : LeafReceiverOptions → List (Bytes × LeafConfig) → Option ConfigError
check_leaves o [] = none
check_leaves o (l ∷ ls) = check_leaf o l.0 l.1 then_check check_leaves o ls

check_defaults : LeafReceiverOptions → Option ConfigError
check_defaults o =
    let field = codes "concentrator.leaf_defaults.resource" in
    check_keys o.leaf_defaults_resource field o.leaf_id_attribute
    then_check check_budget (budget_of_mode o o.default_time_mode) o.leaf_defaults_resource field

pub validate_leaf_receiver_options : Bool → LeafReceiverOptions → Option ConfigError
validate_leaf_receiver_options enabled o =
    if not enabled
    then none
    else check_limits o then_check check_defaults o then_check check_leaves o o.leaves
