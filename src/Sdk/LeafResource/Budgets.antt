-- ===== src/Sdk/LeafResource/Budgets.antt =====
-- src/sdk/leaf_resource.cpp, `Budget`: the budget against the Resource it stands for.
use microtel.Prelude.{
  ℕ, ◌≡◌, refl, inl, inr, true, if◌then◌else◌, not, List, [], ◌∷◌, Option, none, some, length,
  arith, Bool-cases,
}
use microtel.Prelude.Bytes.{Bytes, bytes_eq, bytes_eq_iff}
use microtel.Sdk.Record.{KeyValue}
use microtel.Sdk.LeafResource.{
  find_cost, Budget, new_budget, charge, has_cost, value_bytes, merge, names, layer, charge_each,
  charge_id, charge_service, charge_fixed_layers, LeafResourceLayers, is_empty, is_some, with_id,
  with_service, merge_layers, service_name_key, unknown_service,
}
use microtel.Sdk.LeafResource.Cost.{or_else, distinct, find_cost-put_cost, distinct_parts}
use microtel.Sdk.LeafResource.Layers.{costs, last_cost, find_cost-merge, find_cost-charge_each}

pub names-find_cost :
    (kvs : List KeyValue) (k : Bytes) → names kvs k ≡ is_some (find_cost k (costs kvs))
unfolding names costs find_cost
names-find_cost [] k = refl
names-find_cost (kv ∷ kvs) k = ground (arith, names-find_cost kvs k)

pub names-last_cost : (kvs : List KeyValue) (k : Bytes) → names kvs k ≡ is_some (last_cost k kvs)
unfolding names last_cost
names-last_cost [] k = refl
names-last_cost (kv ∷ kvs) k = ground (arith, names-last_cost kvs k)

-- What a list of one attribute costs a key.
abbrev pub only : Bytes → ℕ → Bytes → Option ℕ
only key v k = if bytes_eq key k then some v else none

abbrev pub id_cost : LeafResourceLayers → Bytes → Option ℕ
id_cost layers k =
    if not (is_empty layers.id_key) then only layers.id_key (length layers.leaf_id) k else none

abbrev pub service_cost : Bytes → Option ℕ
service_cost k = only service_name_key (length unknown_service) k

find_cost-charge :
    (k key : Bytes) (v : ℕ) (b : Budget)
    → find_cost k (charge key v b).values ≡ or_else (only key v k) (find_cost k b.values)
unfolding charge
find_cost-charge k key v b = ground (arith, find_cost-put_cost k key v b.values)

find_cost-charge_id :
    (k : Bytes) (layers : LeafResourceLayers) (b : Budget)
    → find_cost k (charge_id layers b).values ≡ or_else (id_cost layers k) (find_cost k b.values)
find_cost-charge_id k layers b = elim (Bool-cases (is_empty layers.id_key)) [
  | inl e ↦ rw e refl
  | inr e ↦ rw e (find_cost-charge k layers.id_key (length layers.leaf_id) b)
]

find_cost-charge_service :
    (k : Bytes) (b : Budget)
    → find_cost k (charge_service b).values ≡ or_else (find_cost k b.values) (service_cost k)
unfolding has_cost
find_cost-charge_service k b =
    let charged = find_cost-charge k service_name_key (length unknown_service) b in
    ground (arith, charged, bytes_eq_iff service_name_key k)

find_cost-with_id :
    (k : Bytes) (layers : LeafResourceLayers) (m : List KeyValue)
    → find_cost k (costs (with_id layers m)) ≡ or_else (id_cost layers k) (find_cost k (costs m))
unfolding last_cost value_bytes
find_cost-with_id k layers m = elim (Bool-cases (is_empty layers.id_key)) [
  | inl e ↦ rw e refl
  | inr e ↦ rw e (find_cost-merge k m (layer layers.id_key layers.leaf_id))
]

find_cost-with_service :
    (k : Bytes) (m : List KeyValue)
    → find_cost k (costs (with_service m)) ≡ or_else (find_cost k (costs m)) (service_cost k)
unfolding last_cost value_bytes
find_cost-with_service k m =
    let merged = find_cost-merge k m (layer service_name_key unknown_service) in
    ground (arith, merged, names-find_cost m service_name_key, bytes_eq_iff service_name_key k)

unfoldable pub fixed_cost : LeafResourceLayers → Bytes → Option ℕ
fixed_cost layers k =
    or_else
      (or_else (id_cost layers k)
        (or_else (last_cost k layers.configured) (last_cost k layers.defaults)))
      (service_cost k)

pub none_last : (o : Option ℕ) → or_else o none ≡ o
none_last o = ground arith

pub find_cost-charge_fixed_layers :
    (k : Bytes) (layers : LeafResourceLayers)
    → find_cost k (charge_fixed_layers layers).values ≡ fixed_cost layers k
unfolding charge_fixed_layers fixed_cost find_cost
find_cost-charge_fixed_layers k layers =
    let defaults = charge_each layers.defaults new_budget in
    let configured = charge_each layers.configured defaults in
    rw
      (
        find_cost-charge_service k (charge_id layers configured),
        find_cost-charge_id k layers configured,
        find_cost-charge_each k layers.configured defaults,
        find_cost-charge_each k layers.defaults new_budget,
        none_last (last_cost k layers.defaults),
      )
      refl

-- Distinct keys: the first attribute for a key is the last one.
pub last_cost-find_cost :
    (k : Bytes) (kvs : List KeyValue)
    → distinct (costs kvs) ≡ true
    → last_cost k kvs ≡ find_cost k (costs kvs)
unfolding last_cost find_cost costs distinct
last_cost-find_cost k [] d = refl
last_cost-find_cost k (kv ∷ kvs) d =
    let (new, rest) = distinct_parts (kv.key, value_bytes kv.value) (costs kvs) d in
    ground (arith, last_cost-find_cost k kvs rest, bytes_eq_iff kv.key k, new)

pub find_cost-merge_layers :
    (k : Bytes) (layers : LeafResourceLayers) (admitted : List KeyValue)
    → distinct (costs layers.defaults) ≡ true
    → find_cost k (costs (merge_layers layers admitted))
      ≡ or_else
          (or_else (id_cost layers k) (
            or_else
              (last_cost k layers.configured)
              (or_else (last_cost k admitted) (last_cost k layers.defaults))))
          (service_cost k)
unfolding merge_layers
find_cost-merge_layers k layers admitted d =
    let base = merge layers.defaults admitted in
    let configured = merge base layers.configured in
    rw
      (
        find_cost-with_service k (with_id layers configured),
        find_cost-with_id k layers configured,
        find_cost-merge k base layers.configured,
        find_cost-merge k layers.defaults admitted,
        last_cost-find_cost k layers.defaults d,
      )
      refl
