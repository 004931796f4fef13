-- ===== src/Sdk/LeafResource/Layers.antt =====
-- src/sdk/leaf_resource.cpp: the layers as lookups: what a key costs in the merged Resource, and in the budget that charged it.
use microtel.Prelude.{
  ℕ, ◌+◌, ◌≡◌, refl, ◌∙◌, inl, inr, true, if◌then◌else◌, List, [], ◌∷◌, Option, none, some, arith,
  Option-cases,
}
use microtel.Prelude.Bytes.{Bytes, bytes_eq}
use microtel.Sdk.Record.{KeyValue}
use microtel.Sdk.LeafResource.{
  Costs, find_cost, put_cost, Budget, total_with, charge, value_bytes, attribute_bytes, override,
  merge, charge_each,
}
use microtel.Sdk.LeafResource.Cost.{
  sum_costs, or_else, distinct, find_cost-put_cost, sum_costs-put_cost, put_distinct, sum_found,
}

-- What each attribute costs.
unfoldable pub costs : List KeyValue → Costs
costs [] = []
costs (kv ∷ kvs) = (kv.key, value_bytes kv.value) ∷ costs kvs

unfoldable pub resource_bytes : List KeyValue → ℕ
resource_bytes [] = 0
resource_bytes (kv ∷ kvs) = attribute_bytes kv + resource_bytes kvs

pub sum_costs-costs : (kvs : List KeyValue) → sum_costs (costs kvs) ≡ resource_bytes kvs
unfolding sum_costs costs resource_bytes attribute_bytes
sum_costs-costs [] = refl
sum_costs-costs (kv ∷ kvs) = omega (arith, sum_costs-costs kvs)

pub costs-override :
    (kv : KeyValue) (ms : List KeyValue)
    → costs (override kv ms) ≡ put_cost kv.key (value_bytes kv.value) (costs ms)
unfolding costs override put_cost
costs-override kv [] = refl
costs-override kv (m ∷ ms) = ground (arith, costs-override kv ms)

-- The cost of the last attribute for a key.
unfoldable pub last_cost : Bytes → List KeyValue → Option ℕ
last_cost k [] = none
last_cost k (kv ∷ kvs) =
    or_else (last_cost k kvs) (if bytes_eq kv.key k then some (value_bytes kv.value) else none)

pushed :
    (k : Bytes) (kv : KeyValue) (kvs : List KeyValue) (o : Option ℕ)
    → or_else (last_cost k kvs) (if bytes_eq kv.key k then some (value_bytes kv.value) else o)
      ≡ or_else (last_cost k (kv ∷ kvs)) o
unfolding last_cost
pushed k kv kvs o = ground arith

pub find_cost-merge :
    (k : Bytes) (base overriding : List KeyValue)
    → find_cost k (costs (merge base overriding))
      ≡ or_else (last_cost k overriding) (find_cost k (costs base))
unfolding merge last_cost
find_cost-merge k base [] = refl
find_cost-merge k base (kv ∷ kvs) =
    find_cost-merge k (override kv base) kvs
    ∙ rw (costs-override kv base, find_cost-put_cost k kv.key (value_bytes kv.value) (costs base))
        (pushed k kv kvs (find_cost k (costs base)))

pub merge-distinct :
    (base overriding : List KeyValue)
    → distinct (costs base) ≡ true
    → distinct (costs (merge base overriding)) ≡ true
unfolding merge
merge-distinct base [] h = h
merge-distinct base (kv ∷ kvs) h =
    merge-distinct (override kv base) kvs
      (rw (costs-override kv base) (put_distinct kv.key (value_bytes kv.value) (costs base) h))

-- A budget whose total is what its entries cost, one entry a key.
abbrev pub IsExact : Budget → Type 0
IsExact b = (b.total ≡ sum_costs b.values) × (distinct b.values ≡ true)

total_with-sum_costs :
    (key : Bytes) (v : ℕ) (b : Budget)
    → b.total ≡ sum_costs b.values
    → total_with key v b ≡ sum_costs (put_cost key v b.values)
unfolding total_with
total_with-sum_costs key v b e =
    let change = sum_costs-put_cost key v b.values in
    let covered = sum_found key b.values in
    elim (Option-cases (find_cost key b.values)) [
      | inl n ↦ let c = rw n at change in rw (n, total_with) (omega (arith, e))
      | inr (old, n) ↦
          let c = rw n at change in let le = covered old n in rw (n, total_with) (omega (arith, e))
    ]

pub charge-IsExact : (key : Bytes) (v : ℕ) (b : Budget) → IsExact b → IsExact (charge key v b)
unfolding charge
charge-IsExact key v b (e, d) = (total_with-sum_costs key v b e, put_distinct key v b.values d)

pub charge_each-IsExact :
    (kvs : List KeyValue) (b : Budget) → IsExact b → IsExact (charge_each kvs b)
unfolding charge_each
charge_each-IsExact [] b h = h
charge_each-IsExact (kv ∷ kvs) b h =
    charge_each-IsExact kvs (charge kv.key (value_bytes kv.value) b)
      (charge-IsExact kv.key (value_bytes kv.value) b h)

pub find_cost-charge_each :
    (k : Bytes) (kvs : List KeyValue) (b : Budget)
    → find_cost k (charge_each kvs b).values ≡ or_else (last_cost k kvs) (find_cost k b.values)
unfolding charge_each charge last_cost
find_cost-charge_each k [] b = refl
find_cost-charge_each k (kv ∷ kvs) b =
    find_cost-charge_each k kvs (charge kv.key (value_bytes kv.value) b)
    ∙ rw (find_cost-put_cost k kv.key (value_bytes kv.value) b.values)
        (pushed k kv kvs (find_cost k b.values))
