-- ===== src/Sdk/LeafTable/InStep/Evictions.antt =====
-- `Touch` and the evictions keep the list and the index in step.
use microtel.Prelude.{
  ℕ, zero, suc, ◌-◌, ◌≤◌, ◌≡◌, refl, ◌∙◌, inl, inr, true, false, List, Option, none, some, length,
  arith, Bool-cases,
}
use microtel.Prelude.Int.{ℤ, pos, ltb_ℤ}
use microtel.Prelude.Bytes.{Bytes, bytes_eq_iff, bytes_eq_refl}
use microtel.Sdk.LeafTable.{
  Leaf, LeafTable, has_key, unlink, relink, touch, pop_back, evict_back, evict_oldest, is_idle,
  evict_while_idle, evict_idle,
}
use microtel.Sdk.LeafTable.InStep.{
  has_leaf, IsInStep, Unlinked, unlink-Unlinked, Popped, pop_back-Popped, has_key-erase_key,
  length-erase_key, DistinctKeys-erase_key,
}

-- `touch` that finds the leaf leaves it at the front, and one that does not changes nothing.
relink-IsInStep :
    (id : Bytes) (now : ℤ) (t : LeafTable) (o : Option (Leaf × List Leaf))
    → IsInStep t
    → Unlinked id t.recency o
    → IsInStep (relink now t o).0
unfolding relink
relink-IsInStep id now t none v u = v
relink-IsInStep id now t (some (e, rest)) v u =
    unfold has_leaf in
    record {
      same = λ j. ground (arith, v.same j, (u.1).had j);
      same_length = omega (arith, v.same_length, (u.1).shorter);
      leaves = ((u.1).gone, (u.1).distinct);
      keys = v.keys;
      bounded = omega (arith, v.bounded, (u.1).shorter);
      positive = v.positive;
    }

pub touch-IsInStep :
    (id : Bytes) (now : ℤ) (t : LeafTable) → IsInStep t → IsInStep (touch id now t).0
unfolding touch
touch-IsInStep id now t v = elim (Bool-cases (has_key t.index id)) [
  | inl h ↦
      rw h
        (relink-IsInStep id now t (unlink id t.recency) v (unlink-Unlinked id t.recency v.leaves))
  | inr h ↦ rw h v
]

relinked :
    (now : ℤ) (t : LeafTable) (o : Option (Leaf × List Leaf)) (id : Bytes)
    → has_leaf t.recency id ≡ true
    → Unlinked id t.recency o
    → (relink now t o).1 ≡ true
unfolding relink
relinked now t none id h u = absurd (ground arith)
relinked now t (some (e, rest)) id h u = refl

-- `touch` finds what the index has.
pub touch_found :
    (id : Bytes) (now : ℤ) (t : LeafTable) → IsInStep t → (touch id now t).1 ≡ has_key t.index id
unfolding touch
touch_found id now t v = elim (Bool-cases (has_key t.index id)) [
  | inl h ↦ rw h (
      relinked now t (unlink id t.recency) id (ground (arith, v.same id))
        (unlink-Unlinked id t.recency v.leaves))
  | inr h ↦ rw h refl
]

-- An eviction from a table that is not empty takes one leaf out.
pub record Evicts (t u : LeafTable) : Type 0 where
  pub in_step : IsInStep u
  pub fewer : length u.index ≤ length t.index - 1
  pub limit : u.max_leaves ≡ t.max_leaves
  pub no_new : (id : Bytes) → has_key t.index id ≡ false → has_key u.index id ≡ false

evict_back-Evicts :
    (t : LeafTable) (o : Option (List Leaf × Leaf))
    → IsInStep t
    → Popped t.recency o
    → Evicts t (evict_back t o)
unfolding evict_back
evict_back-Evicts t none v p = record {
  in_step = v;
  fewer = ground (arith, v.same_length);
  limit = refl;
  no_new = λ id h. h;
}
evict_back-Evicts t (some (front, b)) v p =
    let k = has_key-erase_key b.id in
    let held = v.same b.id in
    let had = p.had b.id in
    let long = length-erase_key b.id t.index in
    let self = bytes_eq_refl b.id in
    record {
      in_step = record {
        same =
            λ j. ground (arith, k j t.index v.keys, v.same j, p.had j, bytes_eq_iff b.id j, p.gone);
        same_length = ground (arith, v.same_length, p.shorter);
        leaves = p.distinct;
        keys = DistinctKeys-erase_key b.id t.index v.keys;
        bounded = omega (arith, v.bounded, p.shorter);
        positive = v.positive;
      };
      fewer = ground arith;
      limit = refl;
      no_new = λ j h. ground (arith, k j t.index v.keys);
    }

pub evict_oldest-Evicts : (t : LeafTable) → IsInStep t → Evicts t (evict_oldest t)
unfolding evict_oldest
evict_oldest-Evicts t v =
    evict_back-Evicts t (pop_back t.recency) v (pop_back-Popped t.recency v.leaves)

-- Any number of evictions.
pub record Shrinks (t u : LeafTable) : Type 0 where
  pub in_step : IsInStep u
  pub no_more : length u.index ≤ length t.index
  pub limit : u.max_leaves ≡ t.max_leaves
  pub no_new : (id : Bytes) → has_key t.index id ≡ false → has_key u.index id ≡ false

evict_while_idle-Shrinks :
    (fuel : ℕ) (now : ℤ) (t : LeafTable) → IsInStep t → Shrinks t (evict_while_idle fuel now t)
unfolding evict_while_idle
evict_while_idle-Shrinks zero now t v = record {
  in_step = v;
  no_more = omega arith;
  limit = refl;
  no_new = λ id h. h;
}
evict_while_idle-Shrinks (suc fuel) now t v =
    elim (Bool-cases (is_idle now t.idle_timeout (pop_back t.recency))) [
      | inl i ↦
          let e = evict_oldest-Evicts t v in
          let s = evict_while_idle-Shrinks fuel now (evict_oldest t) e.in_step in
          rw i (record {
            in_step = s.in_step;
            no_more = omega (arith, e.fewer, s.no_more);
            limit = s.limit ∙ e.limit;
            no_new = λ id h. s.no_new id (e.no_new id h);
          })
      | inr i ↦
          rw i (record { in_step = v; no_more = omega arith; limit = refl; no_new = λ id h. h })
    ]

pub evict_idle-Shrinks : (now : ℤ) (t : LeafTable) → IsInStep t → Shrinks t (evict_idle now t)
unfolding evict_idle
evict_idle-Shrinks now t v = elim (Bool-cases (ltb_ℤ (pos 0) t.idle_timeout)) [
  | inl h ↦ rw h (evict_while_idle-Shrinks (length t.recency) now t v)
  | inr h ↦ rw h (record { in_step = v; no_more = omega arith; limit = refl; no_new = λ id k. k })
]
