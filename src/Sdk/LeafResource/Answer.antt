-- ===== src/Sdk/LeafResource/Answer.antt =====
-- src/sdk/leaf_resource.cpp, `MergeResolverResource`: what a resolver's answer may add to the layers the operator fixed.
use Prim.Native.Nat.{max}
use microtel.Prelude.{
  ℕ, ◌≤◌, ◌≡◌, sym, ◌∙◌, inl, inr, Bool, true, false, ◌&&◌, ◌||◌, if◌then◌else◌, not, ltb, List, [],
  ◌∷◌, Option, none, some, arith, Bool-cases,
}
use microtel.Prelude.Bytes.{Bytes, bytes_eq, bytes_eq_iff}
use microtel.Sdk.Record.{KeyValue}
use microtel.Sdk.LeafWire.{is_reserved}
use microtel.Sdk.LeafResource.{
  find_cost, Budget, total_with, charge, value_bytes, override, charge_fixed_layers,
  LeafResourceLayers, is_empty, merge_layers, merge_answer, merge_resolver_resource,
}
use microtel.Sdk.LeafResource.Cost.{or_else, distinct, find_cost-put_cost, put_distinct, same_sum}
use microtel.Sdk.LeafResource.Layers.{
  costs, resource_bytes, last_cost, costs-override, IsExact, charge-IsExact,
}
use microtel.Sdk.LeafResource.Budgets.{
  id_cost, service_cost, fixed_cost, last_cost-find_cost, find_cost-charge_fixed_layers,
}
use microtel.Sdk.LeafResource.Resolved.{
  charge_fixed_layers-IsExact, resource_bytes-charge_fixed_layers,
}

-- The layers with another configured Resource.
abbrev pub with_configured : List KeyValue → LeafResourceLayers → LeafResourceLayers
with_configured configured fixed = record fixed { declared = []; configured = configured }

-- A budget that has charged these layers.
abbrev IsCharged : LeafResourceLayers → List KeyValue → Budget → Type 0
IsCharged fixed configured b =
    IsExact b
    × ((k : Bytes) → find_cost k b.values ≡ fixed_cost (with_configured configured fixed) k)

override-distinct :
    (kv : KeyValue) (ms : List KeyValue)
    → distinct (costs ms) ≡ true
    → distinct (costs (override kv ms)) ≡ true
override-distinct kv ms d =
    rw (costs-override kv ms) (put_distinct kv.key (value_bytes kv.value) (costs ms) d)

overlay :
    (t : Bool) (v : ℕ) (i c d s : Option ℕ)
    → (t ≡ true → i ≡ none)
    → (if t then some v else or_else (or_else i (or_else c d)) s)
      ≡ or_else (or_else i (or_else (if t then some v else c) d)) s
overlay t v i c d s h = ground arith

-- A key that is not the id's has no cost from the id.
id_elsewhere :
    (fixed : LeafResourceLayers) (key k : Bytes)
    → (not (is_empty fixed.id_key) && bytes_eq key fixed.id_key) ≡ false
    → bytes_eq key k ≡ true
    → id_cost fixed k ≡ none
id_elsewhere fixed key k other p =
    ground (arith, bytes_eq_iff key k, bytes_eq_iff fixed.id_key k, bytes_eq_iff key fixed.id_key)

charge-IsCharged :
    (fixed : LeafResourceLayers) (kv : KeyValue) (configured : List KeyValue) (b : Budget)
    → (not (is_empty fixed.id_key) && bytes_eq kv.key fixed.id_key) ≡ false
    → distinct (costs configured) ≡ true
    → IsCharged fixed configured b
    → IsCharged fixed (override kv configured) (charge kv.key (value_bytes kv.value) b)
unfolding charge fixed_cost
charge-IsCharged fixed kv configured b other d (exact, same) =
    let v = value_bytes kv.value in
    (
      charge-IsExact kv.key v b exact,
      λ k.
          let free : bytes_eq kv.key k ≡ true → id_cost fixed k ≡ none =
            λ p. id_elsewhere fixed kv.key k other p in
          let before = rw (last_cost-find_cost k configured d) at (same k) in
          rw
            (
              find_cost-put_cost k kv.key v b.values,
              last_cost-find_cost k (override kv configured) (override-distinct kv configured d),
              costs-override kv configured,
              find_cost-put_cost k kv.key v (costs configured),
              before,
            )
            (overlay (bytes_eq kv.key k) v (id_cost fixed k) (find_cost k (costs configured))
              (last_cost k fixed.defaults) (service_cost k) free),
    )

charged_total :
    (fixed : LeafResourceLayers) (configured : List KeyValue) (b : Budget)
    → IsCharged fixed configured b
    → (charge_fixed_layers (with_configured configured fixed)).total ≡ b.total
charged_total fixed configured b (exact, same) =
    let layers = with_configured configured fixed in
    let fresh = charge_fixed_layers-IsExact layers in
    fresh.0
    ∙ same_sum (charge_fixed_layers layers).values b.values fresh.1 exact.1
        (λ k. find_cost-charge_fixed_layers k layers ∙ sym (same k))
    ∙ sym exact.0

-- The layers' cost after the loop.
abbrev answered_total : LeafResourceLayers → List KeyValue → List KeyValue → Budget → ℕ
answered_total fixed configured answer b =
    (charge_fixed_layers
      (with_configured (merge_answer fixed configured answer b).configured fixed)).total

charged_within :
    (fixed : LeafResourceLayers) (key : Bytes) (v : ℕ) (b : Budget) {n : ℕ}
    → n ≤ max fixed.budget (charge key v b).total
    → total_with key v b ≤ fixed.budget
    → n ≤ max fixed.budget b.total
unfolding charge
charged_within fixed key v b h fits = omega arith

merge_answer_total :
    (fixed : LeafResourceLayers) (configured answer : List KeyValue) (b : Budget)
    → distinct (costs configured) ≡ true
    → IsCharged fixed configured b
    → answered_total fixed configured answer b ≤ max fixed.budget b.total
unfolding merge_answer
merge_answer_total fixed configured [] b d c = omega (arith, charged_total fixed configured b c)
merge_answer_total fixed configured (kv ∷ answer) b d c =
    let v = value_bytes kv.value in
    let skipped = merge_answer_total fixed configured answer b d c in
    let next = override-distinct kv configured d in
    elim (Bool-cases
      (is_reserved kv.key || not (is_empty fixed.id_key) && bytes_eq kv.key fixed.id_key)) [
        | inl e ↦ rw (e, answered_total) skipped
        | inr e ↦ elim (Bool-cases (ltb fixed.budget (total_with kv.key v b))) [
          | inl o ↦ rw (e, o, answered_total) skipped
          | inr o ↦
              rw (e, o, answered_total)
                (let other : (not (is_empty fixed.id_key) && bytes_eq kv.key fixed.id_key) ≡ false =
                    ground arith in
                  let taken =
                    merge_answer_total fixed (override kv configured) answer (charge kv.key v b)
                      next (charge-IsCharged fixed kv configured b other d c) in
                  let fits : total_with kv.key v b ≤ fixed.budget = ground arith in
                  charged_within fixed kv.key v b taken fits)
        ]
      ]

-- A resolver's answer takes the fixed layers of a leaf's Resource over the budget only if they were
-- over it before, and then adds nothing to what they cost; the defaults and the static entry name
-- each key once.
pub merge_resolver_resource_within_budget :
    (fixed : LeafResourceLayers) (configured answer : List KeyValue)
    → distinct (costs fixed.defaults) ≡ true
    → distinct (costs configured) ≡ true
    → resource_bytes (
        merge_layers
          (with_configured (merge_resolver_resource configured answer fixed).configured fixed)
          [])
      ≤ max fixed.budget (resource_bytes (merge_layers (with_configured configured fixed) []))
unfolding merge_resolver_resource
merge_resolver_resource_within_budget fixed configured answer d c =
    let layers = with_configured configured fixed in
    let b = charge_fixed_layers layers in
    let after = (merge_answer fixed configured answer b).configured in
    let charged : IsCharged fixed configured b =
      (charge_fixed_layers-IsExact layers, λ k. find_cost-charge_fixed_layers k layers) in
    omega (
      arith,
      resource_bytes-charge_fixed_layers layers d,
      resource_bytes-charge_fixed_layers (with_configured after fixed) d,
      merge_answer_total fixed configured answer b c charged,
    )
