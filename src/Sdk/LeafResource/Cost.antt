-- ===== src/Sdk/LeafResource/Cost.antt =====
-- src/sdk/leaf_resource.cpp, `Budget`: association lists of costs and what they sum to.
use microtel.Prelude.{
  ℕ, ◌+◌, ◌≤◌, ◌≡◌, refl, inl, inr, Bool, true, false, if◌then◌else◌, [], ◌∷◌, Option, none, some,
  length, arith, Bool-cases, Option-cases,
}
use microtel.Prelude.Bytes.{Bytes, bytes_eq, bytes_eq_iff, bytes_eq_refl}
use microtel.Sdk.LeafResource.{Costs, find_cost, put_cost}

unfoldable pub sum_costs : Costs → ℕ
sum_costs [] = 0
sum_costs (c ∷ cs) = length c.0 + c.1 + sum_costs cs

abbrev pub or_else : Option ℕ → Option ℕ → Option ℕ
or_else none o = o
or_else (some v) o = some v

unfoldable pub distinct : Costs → Bool
distinct [] = true
distinct (c ∷ cs) = elim (find_cost c.0 cs) [ none ↦ distinct cs | some v ↦ false ]

-- The list without the first entry for a key.
unfoldable remove : Bytes → Costs → Costs
remove key [] = []
remove key (c ∷ cs) = if bytes_eq c.0 key then cs else c ∷ remove key cs

bytes_eq_sym : (a b : Bytes) → bytes_eq a b ≡ bytes_eq b a
bytes_eq_sym a b = ground (arith, bytes_eq_iff a b, bytes_eq_iff b a)

bytes_eq_trans : (a b c : Bytes) → bytes_eq a b ≡ true → bytes_eq b c ≡ true → bytes_eq a c ≡ true
bytes_eq_trans a b c p q = ground (arith, bytes_eq_iff a b, bytes_eq_iff b c, bytes_eq_iff a c)

pub find_cost-put_cost :
    (k key : Bytes) (v : ℕ) (cs : Costs)
    → find_cost k (put_cost key v cs) ≡ (if bytes_eq key k then some v else find_cost k cs)
unfolding find_cost put_cost
find_cost-put_cost k key v [] = refl
find_cost-put_cost k key v (c ∷ cs) =
    let same = bytes_eq_iff c.0 key in
    ground (arith, same, bytes_eq_iff c.0 k, bytes_eq_iff key k, find_cost-put_cost k key v cs)

pub sum_found :
    (k : Bytes) (cs : Costs) (v : ℕ) → find_cost k cs ≡ some v → length k + v ≤ sum_costs cs
unfolding find_cost sum_costs
sum_found k [] v h = absurd (ground arith)
sum_found k (c ∷ cs) v h = ground (arith, sum_found k cs v, bytes_eq_iff c.0 k)

abbrev PutSum : Option ℕ → Bytes → ℕ → ℕ → ℕ → Type 0
PutSum none key v after before = after ≡ before + length key + v
PutSum (some old) key v after before = after + old ≡ before + v

pub sum_costs-put_cost :
    (key : Bytes) (v : ℕ) (cs : Costs)
    → PutSum (find_cost key cs) key v (sum_costs (put_cost key v cs)) (sum_costs cs)
unfolding find_cost put_cost sum_costs
sum_costs-put_cost key v [] = omega arith
sum_costs-put_cost key v (c ∷ cs) =
    let rest = sum_costs-put_cost key v cs in
    elim (Bool-cases (bytes_eq c.0 key)) [
      | inl e ↦ rw (e, (bytes_eq_iff c.0 key).0 e) (omega arith)
      | inr e ↦ elim (Option-cases (find_cost key cs)) [
        | inl n ↦ let r = rw n at rest in rw (e, n) (omega arith)
        | inr (old, n) ↦ let r = rw n at rest in rw (e, n) (omega arith)
      ]
    ]

distinct_cons :
    (c : Bytes × ℕ) (cs : Costs)
    → find_cost c.0 cs ≡ none
    → distinct cs ≡ true
    → distinct (c ∷ cs) ≡ true
unfolding distinct
distinct_cons c cs n h = rw (n, distinct) h

pub distinct_parts :
    (c : Bytes × ℕ) (cs : Costs)
    → distinct (c ∷ cs) ≡ true
    → (find_cost c.0 cs ≡ none) × (distinct cs ≡ true)
unfolding distinct
distinct_parts c cs h = elim (Option-cases (find_cost c.0 cs)) [
  | inl n ↦ (n, rw (n, distinct) at h)
  | inr (v, n) ↦ let k = rw (n, distinct) at h in absurd (ground arith)
]

pub put_distinct :
    (key : Bytes) (v : ℕ) (cs : Costs) → distinct cs ≡ true → distinct (put_cost key v cs) ≡ true
unfolding distinct put_cost find_cost
put_distinct key v [] h = refl
put_distinct key v (c ∷ cs) h =
    let (new, rest) = distinct_parts c cs h in
    let lookup = find_cost-put_cost c.0 key v cs in
    elim (Bool-cases (bytes_eq c.0 key)) [
      | inl e ↦ rw e (distinct_cons (c.0, v) cs new rest)
      | inr e ↦ rw e (
          distinct_cons c (put_cost key v cs) (ground (arith, lookup, bytes_eq_sym c.0 key, new))
            (put_distinct key v cs rest))
    ]

sum_remove :
    (k : Bytes) (cs : Costs) (v : ℕ)
    → find_cost k cs ≡ some v
    → sum_costs cs ≡ length k + v + sum_costs (remove k cs)
unfolding find_cost sum_costs remove
sum_remove k [] v h = absurd (ground arith)
sum_remove k (c ∷ cs) v h = ground (arith, sum_remove k cs v, bytes_eq_iff c.0 k)

find_remove :
    (j k : Bytes) (cs : Costs)
    → distinct cs ≡ true
    → find_cost j (remove k cs) ≡ (if bytes_eq k j then none else find_cost j cs)
unfolding find_cost distinct remove
find_remove j k [] h = ground arith
find_remove j k (c ∷ cs) h =
    let (new, rest) = distinct_parts c cs h in
    ground (
      arith,
      find_remove j k cs rest,
      bytes_eq_iff c.0 k,
      bytes_eq_iff c.0 j,
      bytes_eq_iff k j,
      new,
    )

distinct_remove : (k : Bytes) (cs : Costs) → distinct cs ≡ true → distinct (remove k cs) ≡ true
unfolding distinct remove
distinct_remove k [] h = refl
distinct_remove k (c ∷ cs) h =
    let (new, rest) = distinct_parts c cs h in
    let lookup = find_remove c.0 k cs rest in
    elim (Bool-cases (bytes_eq c.0 k)) [
      | inl e ↦ rw e rest
      | inr e ↦
          rw e (
            distinct_cons c (remove k cs) (ground (arith, lookup, new)) (distinct_remove k cs rest))
    ]

pub same_sum :
    (xs ys : Costs)
    → distinct xs ≡ true
    → distinct ys ≡ true
    → ((k : Bytes) → find_cost k xs ≡ find_cost k ys)
    → sum_costs xs ≡ sum_costs ys
unfolding find_cost sum_costs
same_sum [] [] p q h = refl
same_sum [] (y ∷ ys) p q h = absurd (ground (arith, h y.0, bytes_eq_refl y.0))
same_sum (x ∷ xs) ys p q h =
    let (new, rest) = distinct_parts x xs p in
    let there : find_cost x.0 ys ≡ some x.1 = ground (arith, h x.0, bytes_eq_refl x.0) in
    let fewer = same_sum xs (remove x.0 ys) rest (distinct_remove x.0 ys q) (λ k.
      let here : find_cost x.0 xs ≡ none = new in
      ground (arith, find_remove k x.0 ys q, h k, bytes_eq_iff x.0 k, here)) in
    omega (arith, sum_remove x.0 ys x.1 there, fewer)
