-- ===== src/Sdk/LeafResource.antt =====
-- src/sdk/leaf_resource.cpp, the Resource of a leaf, and include/microtel/resource.hpp: the layers
-- and the running byte cost that decides which attributes the leaf may add. A map is an association
-- list in order of insertion; a count of bytes in memory does not reach 2^64. An absent layer is the
-- empty one, and the Resource is the list of its attributes.
pub mod Cost
pub mod Layers
pub mod Budgets
pub mod Resolved
pub mod Answer
mod Tests
use microtel.Prelude.{
  ℕ, zero, suc, ◌+◌, ◌-◌, ◌*◌, Bool, true, false, ◌||◌, ◌&&◌, if◌then◌else◌, ltb, not, List, [],
  ◌∷◌, ◌++◌, Option, none, some, length,
}
use microtel.Prelude.Bytes.{Bytes, bytes_eq, codes}
use microtel.Sdk.LeafWire.{is_reserved}
use microtel.Sdk.Record.{AttributeValue, KeyValue}

abbrev pub scalar_bytes : ℕ
scalar_bytes = 8

unfoldable text_bytes : List Bytes → ℕ
text_bytes [] = 0
text_bytes (s ∷ ss) = length s + text_bytes ss

unfoldable pub value_bytes : AttributeValue → ℕ
unfolding text_bytes
value_bytes (AttributeValue.string s) = length s
value_bytes (AttributeValue.strings ss) = text_bytes ss
value_bytes (AttributeValue.booleans bs) = length bs * scalar_bytes
value_bytes (AttributeValue.int64s is) = length is * scalar_bytes
value_bytes (AttributeValue.doubles ds) = length ds * scalar_bytes
value_bytes (AttributeValue.boolean b) = scalar_bytes
value_bytes (AttributeValue.int64 i) = scalar_bytes
value_bytes (AttributeValue.double d) = scalar_bytes

unfoldable pub attribute_bytes : KeyValue → ℕ
attribute_bytes kv = length kv.key + value_bytes kv.value

abbrev pub Costs : Type 0
Costs = List (Bytes × ℕ)

-- `find`.
unfoldable pub find_cost : Bytes → Costs → Option ℕ
find_cost key [] = none
find_cost key (c ∷ cs) = if bytes_eq c.0 key then some c.1 else find_cost key cs

-- `m_values[key] = value_bytes`.
unfoldable pub put_cost : Bytes → ℕ → Costs → Costs
put_cost key value_bytes [] = (key, value_bytes) ∷ []
put_cost key value_bytes (c ∷ cs) =
    if bytes_eq c.0 key then (c.0, value_bytes) ∷ cs else c ∷ put_cost key value_bytes cs

pub record Budget : Type 0 where
  pub values : Costs
  pub total : ℕ

abbrev pub new_budget : Budget
new_budget = record { values = []; total = 0 }

unfoldable pub total_with : Bytes → ℕ → Budget → ℕ
total_with key value_bytes b = elim (find_cost key b.values) [
  | none ↦ b.total + length key + value_bytes
  | some old ↦ b.total - old + value_bytes
]

unfoldable pub charge : Bytes → ℕ → Budget → Budget
charge key value_bytes b = record {
  values = put_cost key value_bytes b.values;
  total = total_with key value_bytes b;
}

abbrev pub is_some : {V : Type 0} → Option V → Bool
is_some none = false
is_some (some v) = true

unfoldable pub has_cost : Bytes → Budget → Bool
has_cost key b = is_some (find_cost key b.values)

pub record LeafResourceLayers : Type 0 where
  pub defaults : List KeyValue
  pub declared : List KeyValue
  pub configured : List KeyValue
  pub id_key : Bytes
  pub leaf_id : Bytes
  pub budget : ℕ

-- `Resource::Merge`: one attribute of the overriding Resource, and all of them.
unfoldable pub override : KeyValue → List KeyValue → List KeyValue
override kv [] = kv ∷ []
override kv (m ∷ ms) =
    if bytes_eq m.key kv.key then record m { value = kv.value } ∷ ms else m ∷ override kv ms

unfoldable pub merge : List KeyValue → List KeyValue → List KeyValue
merge base [] = base
merge base (kv ∷ overriding) = merge (override kv base) overriding

-- `std::ranges::find` by key.
unfoldable pub names : List KeyValue → Bytes → Bool
names [] key = false
names (kv ∷ kvs) key = bytes_eq kv.key key || names kvs key

abbrev pub layer : Bytes → Bytes → List KeyValue
layer key value = record { key = key; value = AttributeValue.string value } ∷ []

abbrev pub service_name_key : Bytes
service_name_key = codes "service.name"

abbrev pub unknown_service : Bytes
unknown_service = codes "unknown_service"

unfoldable pub charge_each : List KeyValue → Budget → Budget
charge_each [] b = b
charge_each (kv ∷ kvs) b = charge_each kvs (charge kv.key (value_bytes kv.value) b)

abbrev pub is_empty : Bytes → Bool
is_empty [] = true
is_empty (c ∷ cs) = false

abbrev pub charge_id : LeafResourceLayers → Budget → Budget
charge_id layers b =
    if not (is_empty layers.id_key) then charge layers.id_key (length layers.leaf_id) b else b

abbrev pub charge_service : Budget → Budget
charge_service b =
    if not (has_cost service_name_key b)
    then charge service_name_key (length unknown_service) b
    else b

unfoldable pub charge_fixed_layers : LeafResourceLayers → Budget
charge_fixed_layers layers =
    charge_service
      (charge_id layers (charge_each layers.configured (charge_each layers.defaults new_budget)))

-- The keys that `ChargeFixedLayers` returns.
unfoldable pub is_pinned : LeafResourceLayers → Bytes → Bool
is_pinned layers key =
    names layers.configured key || not (is_empty layers.id_key) && bytes_eq layers.id_key key

pub record Admitted : Type 0 where
  pub admitted : List KeyValue
  pub budget : Budget
  pub dropped : ℕ

-- The loop of `AdmitDeclared`.
unfoldable pub admit_declared : LeafResourceLayers → List KeyValue → Budget → Admitted
admit_declared layers [] b = record { admitted = []; budget = b; dropped = 0 }
admit_declared layers (kv ∷ kvs) b =
    let skipped = admit_declared layers kvs b in
    let taken = admit_declared layers kvs (charge kv.key (value_bytes kv.value) b) in
    if is_reserved kv.key || is_pinned layers kv.key
    then skipped
    else if ltb layers.budget (total_with kv.key (value_bytes kv.value) b)
    then record skipped { dropped = suc skipped.dropped }
    else record taken { admitted = kv ∷ taken.admitted }

pub record ResolvedLeafResource : Type 0 where
  pub resource : List KeyValue
  pub attributes_dropped : ℕ

abbrev pub with_id : LeafResourceLayers → List KeyValue → List KeyValue
with_id layers merged =
    if not (is_empty layers.id_key)
    then merge merged (layer layers.id_key layers.leaf_id)
    else merged

abbrev pub with_service : List KeyValue → List KeyValue
with_service merged =
    if not (names merged service_name_key)
    then merge merged (layer service_name_key unknown_service)
    else merged

-- The layers in their order, for a list of admitted attributes.
unfoldable pub merge_layers : LeafResourceLayers → List KeyValue → List KeyValue
merge_layers layers admitted =
    with_service (with_id layers (merge (merge layers.defaults admitted) layers.configured))

unfoldable pub resolve_leaf_resource : LeafResourceLayers → ResolvedLeafResource
resolve_leaf_resource layers =
    let declared = admit_declared layers layers.declared (charge_fixed_layers layers) in
    record {
      resource = merge_layers layers declared.admitted;
      attributes_dropped = declared.dropped;
    }

pub record MergedAnswer : Type 0 where
  pub configured : List KeyValue
  pub dropped : ℕ

-- The loop of `MergeResolverResource`.
unfoldable pub merge_answer :
    LeafResourceLayers → List KeyValue → List KeyValue → Budget → MergedAnswer
merge_answer fixed configured [] b = record { configured = configured; dropped = 0 }
merge_answer fixed configured (kv ∷ answer) b =
    let skipped = merge_answer fixed configured answer b in
    let taken =
      merge_answer fixed (override kv configured) answer (charge kv.key (value_bytes kv.value) b) in
    if is_reserved kv.key || not (is_empty fixed.id_key) && bytes_eq kv.key fixed.id_key
    then skipped
    else if ltb fixed.budget (total_with kv.key (value_bytes kv.value) b)
    then record skipped { dropped = suc skipped.dropped }
    else taken

pub merge_resolver_resource : List KeyValue → List KeyValue → LeafResourceLayers → MergedAnswer
merge_resolver_resource configured answer fixed =
    let layers = record fixed { declared = []; configured = configured } in
    merge_answer fixed configured answer (charge_fixed_layers layers)
