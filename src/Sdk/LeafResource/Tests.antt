-- ===== src/Sdk/LeafResource/Tests.antt =====
-- Layers with room for one declared attribute, and the theorems at them.
use Prim.Native.Nat.{max}
use microtel.Prelude.{◌≤◌, ◌≡◌, refl, true, List, [], ◌∷◌}
use microtel.Prelude.Bytes.{Bytes, codes, bytes_eq}
use microtel.Sdk.Record.{AttributeValue, KeyValue}
use microtel.Sdk.LeafWire.{is_reserved, starts_with}
use microtel.Sdk.LeafResource.{
  find_cost, put_cost, total_with, charge, has_cost, LeafResourceLayers, override, merge, names,
  text_bytes, value_bytes, charge_each, charge_fixed_layers, is_pinned, admit_declared,
  merge_layers, resolve_leaf_resource, merge_resolver_resource,
}
use microtel.Sdk.LeafResource.Cost.{distinct}
use microtel.Sdk.LeafResource.Layers.{costs, resource_bytes}
use microtel.Sdk.LeafResource.Resolved.{resolve_leaf_resource_within_budget}
use microtel.Sdk.LeafResource.Answer.{with_configured, merge_resolver_resource_within_budget}

abbrev text : Bytes → Bytes → KeyValue
text key v = record { key = key; value = AttributeValue.string v }

abbrev layers : LeafResourceLayers
layers = record {
  defaults = text (codes "service.name") (codes "pump") ∷ [];
  declared =
      text (codes "microtel.leaf.proto") (codes "1")
      ∷ text (codes "site") (codes "north")
      ∷ text (codes "os") (codes "ab")
      ∷ text (codes "long") (codes "does not fit")
      ∷ [];
  configured = text (codes "site") (codes "s") ∷ [];
  id_key = codes "id";
  leaf_id = codes "7";
  budget = 30;
}

-- The reserved key is stripped, the configured key wins at no cost, one attribute fits and one does
-- not.
resolved : resolve_leaf_resource layers ≡ record {
  resource =
      text (codes "service.name") (codes "pump")
      ∷ text (codes "os") (codes "ab")
      ∷ text (codes "site") (codes "s")
      ∷ text (codes "id") (codes "7")
      ∷ [];
  attributes_dropped = 1;
}
unfolding resolve_leaf_resource merge_layers merge override names admit_declared is_pinned
    is_reserved starts_with charge_fixed_layers charge_each charge has_cost total_with put_cost
    find_cost value_bytes text_bytes bytes_eq
resolved = refl

defaults_distinct : distinct (costs layers.defaults) ≡ true
unfolding distinct costs find_cost
defaults_distinct = refl

configured_distinct : distinct (costs layers.configured) ≡ true
unfolding distinct costs find_cost
configured_distinct = refl

resolve_leaf_resource_within_budget_example :
    resource_bytes (resolve_leaf_resource layers).resource
    ≤ max layers.budget (resource_bytes (merge_layers layers []))
resolve_leaf_resource_within_budget_example =
    resolve_leaf_resource_within_budget layers defaults_distinct

abbrev answer : List KeyValue
answer = text (codes "site") (codes "south") ∷ text (codes "owner") (codes "nobody at all") ∷ []

merge_resolver_resource_within_budget_example :
    resource_bytes (
      merge_layers
        (with_configured
          (merge_resolver_resource layers.configured answer layers).configured
          layers)
        [])
    ≤ max layers.budget
        (resource_bytes (merge_layers (with_configured layers.configured layers) []))
merge_resolver_resource_within_budget_example =
    merge_resolver_resource_within_budget layers layers.configured answer defaults_distinct
      configured_distinct
