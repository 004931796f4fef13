-- ===== src/Sdk/LeafResource/Resolved.antt =====
-- src/sdk/leaf_resource.cpp, `ResolveLeafResource`: the merged Resource against its budget.
use Prim.Native.Nat.{max}
use microtel.Prelude.{
  ℕ, ◌≤◌, ◌≡◌, refl, sym, ap, ◌∙◌, inl, inr, ◌⊎◌, true, false, ◌||◌, ltb, List, [], ◌∷◌, Option,
  none, length, arith, Bool-cases,
}
use microtel.Prelude.Bytes.{Bytes, bytes_eq, bytes_eq_iff}
use microtel.Sdk.Record.{KeyValue}
use microtel.Sdk.LeafWire.{is_reserved}
use microtel.Sdk.LeafResource.{
  find_cost, Budget, new_budget, total_with, charge, has_cost, value_bytes, merge, names, layer,
  charge_each, charge_id, charge_service, charge_fixed_layers, LeafResourceLayers, is_empty,
  is_pinned, admit_declared, with_id, with_service, merge_layers, resolve_leaf_resource,
  service_name_key, unknown_service,
}
use microtel.Sdk.LeafResource.Cost.{sum_costs, or_else, distinct, same_sum}
use microtel.Sdk.LeafResource.Layers.{
  costs, resource_bytes, sum_costs-costs, last_cost, merge-distinct, IsExact, charge-IsExact,
  charge_each-IsExact, find_cost-charge_each,
}
use microtel.Sdk.LeafResource.Budgets.{
  names-last_cost, id_cost, service_cost, fixed_cost, find_cost-charge_fixed_layers,
  find_cost-merge_layers,
}

budget-admit_declared :
    (layers : LeafResourceLayers) (kvs : List KeyValue) (b : Budget)
    → (admit_declared layers kvs b).budget ≡ charge_each (admit_declared layers kvs b).admitted b
unfolding admit_declared charge_each
budget-admit_declared layers [] b = refl
budget-admit_declared layers (kv ∷ kvs) b =
    let charged = charge kv.key (value_bytes kv.value) b in
    ground (arith, budget-admit_declared layers kvs b, budget-admit_declared layers kvs charged)

admitted_free :
    (layers : LeafResourceLayers) (kvs : List KeyValue) (b : Budget) (k : Bytes)
    → is_pinned layers k ≡ true
    → last_cost k (admit_declared layers kvs b).admitted ≡ none
unfolding admit_declared last_cost
admitted_free layers [] b k h = refl
admitted_free layers (kv ∷ kvs) b k h =
    let charged = charge kv.key (value_bytes kv.value) b in
    elim (Bool-cases (is_reserved kv.key || is_pinned layers kv.key)) [
      | inl e ↦ rw e (admitted_free layers kvs b k h)
      | inr e ↦ elim (Bool-cases (ltb layers.budget (total_with kv.key (value_bytes kv.value) b))) [
        | inl o ↦ rw (e, o) (admitted_free layers kvs b k h)
        | inr o ↦
            rw (e, o)
              (let rest = admitted_free layers kvs charged k h in
                elim (Bool-cases (bytes_eq kv.key k)) [
                  | inl q ↦
                      let pinned : is_pinned layers kv.key ≡ true =
                        rw ((bytes_eq_iff kv.key k).0 q) h in
                      absurd (ground arith)
                  | inr q ↦ rw (rest, q) refl
                ])
      ]
    ]

total-admit_declared :
    (layers : LeafResourceLayers) (kvs : List KeyValue) (b : Budget)
    → (admit_declared layers kvs b).budget.total ≤ max layers.budget b.total
unfolding admit_declared charge
total-admit_declared layers [] b = omega arith
total-admit_declared layers (kv ∷ kvs) b =
    let charged = charge kv.key (value_bytes kv.value) b in
    let later = total-admit_declared layers kvs b in
    let taken = total-admit_declared layers kvs charged in
    elim (Bool-cases (is_reserved kv.key || is_pinned layers kv.key)) [
      | inl e ↦ rw e later
      | inr e ↦ elim (Bool-cases (ltb layers.budget (total_with kv.key (value_bytes kv.value) b))) [
        | inl o ↦ rw (e, o) later
        | inr o ↦ rw (e, o) (ground (arith, taken))
      ]
    ]

with_id-distinct :
    (layers : LeafResourceLayers) (m : List KeyValue)
    → distinct (costs m) ≡ true
    → distinct (costs (with_id layers m)) ≡ true
with_id-distinct layers m d = elim (Bool-cases (is_empty layers.id_key)) [
  | inl e ↦ rw e d
  | inr e ↦ rw e (merge-distinct m (layer layers.id_key layers.leaf_id) d)
]

with_service-distinct :
    (m : List KeyValue) → distinct (costs m) ≡ true → distinct (costs (with_service m)) ≡ true
with_service-distinct m d = elim (Bool-cases (names m service_name_key)) [
  | inl e ↦ rw e d
  | inr e ↦ rw e (merge-distinct m (layer service_name_key unknown_service) d)
]

pub merge_layers-distinct :
    (layers : LeafResourceLayers) (admitted : List KeyValue)
    → distinct (costs layers.defaults) ≡ true
    → distinct (costs (merge_layers layers admitted)) ≡ true
unfolding merge_layers
merge_layers-distinct layers admitted d =
    let base = merge layers.defaults admitted in
    let configured = merge base layers.configured in
    with_service-distinct (with_id layers configured) (
      with_id-distinct layers configured
        (merge-distinct base layers.configured (merge-distinct layers.defaults admitted d)))

-- An admitted attribute has a key that neither the configured layer nor the id has.
free_lookups :
    (layers : LeafResourceLayers) (k : Bytes)
    → is_pinned layers k ≡ false
    → (last_cost k layers.configured ≡ none) × (id_cost layers k ≡ none)
unfolding is_pinned
free_lookups layers k h = ground (arith, names-last_cost layers.configured k)

abbrev ChargedLookup : LeafResourceLayers → List KeyValue → Bytes → Type 0
ChargedLookup layers admitted k =
    find_cost k (costs (merge_layers layers admitted))
    ≡ find_cost k (charge_each admitted (charge_fixed_layers layers)).values

reorder :
    (i c a d s : Option ℕ)
    → (a ≡ none) ⊎ ((c ≡ none) × (i ≡ none))
    → or_else (or_else i (or_else c (or_else a d))) s
      ≡ or_else a (or_else (or_else i (or_else c d)) s)
reorder i c a d s h = ground arith

merge_layers-charge_each :
    (layers : LeafResourceLayers) (admitted : List KeyValue)
    → distinct (costs layers.defaults) ≡ true
    → ((k : Bytes) → is_pinned layers k ≡ true → last_cost k admitted ≡ none)
    → (k : Bytes) → ChargedLookup layers admitted k
unfolding fixed_cost
merge_layers-charge_each layers admitted d free k =
    let fixed = charge_fixed_layers layers in
    let either : (last_cost k admitted ≡ none)
        ⊎ ((last_cost k layers.configured ≡ none) × (id_cost layers k ≡ none)) =
      elim (Bool-cases (is_pinned layers k)) [
        | inl e ↦ inl (free k e)
        | inr e ↦ inr (free_lookups layers k e)
      ] in
    rw
      (
        find_cost-merge_layers k layers admitted d,
        find_cost-charge_each k admitted fixed,
        find_cost-charge_fixed_layers k layers,
      )
      (reorder (id_cost layers k) (last_cost k layers.configured) (last_cost k admitted)
        (last_cost k layers.defaults) (service_cost k) either)

charge_id-IsExact :
    (layers : LeafResourceLayers) (b : Budget) → IsExact b → IsExact (charge_id layers b)
charge_id-IsExact layers b h = elim (Bool-cases (is_empty layers.id_key)) [
  | inl e ↦ rw e h
  | inr e ↦ rw e (charge-IsExact layers.id_key (length layers.leaf_id) b h)
]

charge_service-IsExact : (b : Budget) → IsExact b → IsExact (charge_service b)
charge_service-IsExact b h = elim (Bool-cases (has_cost service_name_key b)) [
  | inl e ↦ rw e h
  | inr e ↦ rw e (charge-IsExact service_name_key (length unknown_service) b h)
]

new_budget-IsExact : IsExact new_budget
unfolding sum_costs distinct
new_budget-IsExact = (refl, refl)

pub charge_fixed_layers-IsExact :
    (layers : LeafResourceLayers) → IsExact (charge_fixed_layers layers)
unfolding charge_fixed_layers
charge_fixed_layers-IsExact layers =
    let defaults = charge_each layers.defaults new_budget in
    let configured = charge_each layers.configured defaults in
    charge_service-IsExact (charge_id layers configured) (
      charge_id-IsExact layers configured (
        charge_each-IsExact layers.configured defaults
          (charge_each-IsExact layers.defaults new_budget new_budget-IsExact)))

-- What the layers cost once they are merged is the total of the budget that charged them.
pub resource_bytes-merge_layers :
    (layers : LeafResourceLayers) (admitted : List KeyValue)
    → distinct (costs layers.defaults) ≡ true
    → ((k : Bytes) → is_pinned layers k ≡ true → last_cost k admitted ≡ none)
    → resource_bytes (merge_layers layers admitted)
      ≡ (charge_each admitted (charge_fixed_layers layers)).total
resource_bytes-merge_layers layers admitted d free =
    let exact =
      charge_each-IsExact admitted (charge_fixed_layers layers)
        (charge_fixed_layers-IsExact layers) in
    sym (sum_costs-costs (merge_layers layers admitted))
    ∙ same_sum (costs (merge_layers layers admitted))
        (charge_each admitted (charge_fixed_layers layers)).values
        (merge_layers-distinct layers admitted d) exact.1
        (merge_layers-charge_each layers admitted d free)
    ∙ sym exact.0

none_admitted : (k : Bytes) → last_cost k [] ≡ none
unfolding last_cost
none_admitted k = refl

charge_each_none : (b : Budget) → charge_each [] b ≡ b
unfolding charge_each
charge_each_none b = refl

pub resource_bytes-charge_fixed_layers :
    (layers : LeafResourceLayers)
    → distinct (costs layers.defaults) ≡ true
    → resource_bytes (merge_layers layers []) ≡ (charge_fixed_layers layers).total
resource_bytes-charge_fixed_layers layers d =
    resource_bytes-merge_layers layers [] d (λ k p. none_admitted k)
    ∙ rw (charge_each_none (charge_fixed_layers layers)) refl

-- The Resource that a payload's attributes give a leaf, where the defaults name each key once, fits
-- the budget, or costs no more than the layers the operator fixed: the defaults, the configured
-- attributes, the id and the placeholder of the service's name.
pub resolve_leaf_resource_within_budget :
    (layers : LeafResourceLayers)
    → distinct (costs layers.defaults) ≡ true
    → resource_bytes (resolve_leaf_resource layers).resource
      ≤ max layers.budget (resource_bytes (merge_layers layers []))
unfolding resolve_leaf_resource
resolve_leaf_resource_within_budget layers d =
    let fixed = charge_fixed_layers layers in
    let declared = admit_declared layers layers.declared fixed in
    omega (
      arith,
      resource_bytes-merge_layers layers declared.admitted d
          (admitted_free layers layers.declared fixed),
      ap (λ (b : Budget). b.total) (budget-admit_declared layers layers.declared fixed),
      resource_bytes-charge_fixed_layers layers d,
      total-admit_declared layers layers.declared fixed,
    )
