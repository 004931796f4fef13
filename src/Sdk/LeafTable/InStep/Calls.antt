-- ===== src/Sdk/LeafTable/InStep/Calls.antt =====
-- Every call on the table keeps the list and the index in step.
use microtel.Prelude.{
  ℕ, ◌≤◌, ◌<◌, ◌≡◌, refl, sym, ◌∙◌, inl, inr, Bool, true, false, List, [], ◌∷◌, Option, length,
  arith, Bool-cases, leb,
}
use microtel.Prelude.Int.{ℤ}
use microtel.Prelude.Bytes.{Bytes}
use microtel.Sdk.LeafTime.{BootSample}
use microtel.Sdk.LeafTable.{
  Leaf, LeafTable, make_table, has_key, touch, evict_idle, push_node, pop_front, emplace,
  push_front, make_space, touch_or_insert, at_front, at_seen, settings, adopt_settings, find,
  insert, update_boot_anchor,
}
use microtel.Sdk.LeafTable.InStep.{has_leaf, DistinctLeaves, IsInStep}
use microtel.Sdk.LeafTable.InStep.Evictions.{
  touch-IsInStep, touch_found, evict_oldest-Evicts, evict_idle-Shrinks,
}

-- A table with room for one more leaf, which it does not have.
record HasSpace (id : Bytes) (t : LeafTable) : Type 0 where
  in_step : IsInStep t
  space : length t.index < t.max_leaves
  absent : has_key t.index id ≡ false

make_space-HasSpace :
    (id : Bytes) (t : LeafTable)
    → IsInStep t
    → has_key t.index id ≡ false
    → HasSpace id (make_space t)
unfolding make_space
make_space-HasSpace id t v a = elim (Bool-cases (leb t.max_leaves (length t.index))) [
  | inl h ↦
      let e = evict_oldest-Evicts t v in
      rw h (record {
        in_step = e.in_step;
        space = ground (arith, e.fewer, e.limit, v.bounded, v.same_length, v.positive);
        absent = e.no_new id a;
      })
  | inr h ↦ rw h (record { in_step = v; space = ground arith; absent = a })
]

push_node-IsInStep :
    (id : Bytes) (now : ℤ) (t : LeafTable)
    → HasSpace id t
    → IsInStep (record (push_node id now t) { index = emplace id t.index })
unfolding push_node emplace has_leaf has_key
push_node-IsInStep id now t h =
    let v = h.in_step in
    rw h.absent (record {
      same = λ j. ground (arith, v.same j);
      same_length = omega (arith, v.same_length);
      leaves = (ground (arith, v.same id, h.absent), v.leaves);
      keys = (h.absent, v.keys);
      bounded = omega (arith, v.same_length, h.space);
      positive = v.positive;
    })

push_front-IsInStep :
    (id : Bytes) (now : ℤ) (fails : Bool) (t : LeafTable)
    → HasSpace id t
    → IsInStep (push_front id now fails t).0
unfolding push_front push_node pop_front
push_front-IsInStep id now false t h = push_node-IsInStep id now t h
push_front-IsInStep id now true t h = h.in_step

pub touch_or_insert-IsInStep :
    (id : Bytes) (now : ℤ) (fails : Bool) (t : LeafTable)
    → IsInStep t
    → IsInStep (touch_or_insert id now fails t).0
unfolding touch_or_insert
touch_or_insert-IsInStep id now fails t v = elim (Bool-cases (touch id now t).1) [
  | inl h ↦ rw h (touch-IsInStep id now t v)
  | inr h ↦
      let s = evict_idle-Shrinks now t v in
      let a = s.no_new id (sym (touch_found id now t v) ∙ h) in
      rw h (
        push_front-IsInStep id now fails (make_space (evict_idle now t))
          (make_space-HasSpace id (evict_idle now t) s.in_step a))
]

at_front-IsInStep : (f : Leaf → Leaf) (t : LeafTable) → IsInStep t → IsInStep (at_front f t)
unfolding at_front
at_front-IsInStep f t v = go t.recency v.same v.same_length v.leaves v.bounded
  where
    go :
        (es : List Leaf)
        → ((id : Bytes) → has_key t.index id ≡ has_leaf es id)
        → length t.index ≡ length es
        → DistinctLeaves es
        → length es ≤ t.max_leaves
        → IsInStep
            (record t { recency = elim es [ [] ↦ [] | e ∷ es ↦ record (f e) { id = e.id } ∷ es ] })
    go [] s l d b = record {
      same = s;
      same_length = l;
      leaves = d;
      keys = v.keys;
      bounded = b;
      positive = v.positive;
    }
    go (e ∷ es) s l d b =
        unfold has_leaf in
        record {
          same = λ id. s id;
          same_length = l;
          leaves = d;
          keys = v.keys;
          bounded = b;
          positive = v.positive;
        }

at_seen-IsInStep :
    {A : Type 0} (f : Leaf → Leaf) (answer : LeafTable → A) (x : LeafTable × Bool)
    → IsInStep x.0
    → IsInStep (at_seen f answer x).0
unfolding at_seen
at_seen-IsInStep f answer (t, true) v = v
at_seen-IsInStep f answer (t, false) v = at_front-IsInStep f t v

update_boot_anchor-IsInStep :
    (id : Bytes) (sample : BootSample) (window now : ℤ) (fails : Bool) (t : LeafTable)
    → IsInStep t
    → IsInStep (update_boot_anchor id sample window now fails t).0
unfolding update_boot_anchor
update_boot_anchor-IsInStep id sample window now fails t v =
    let w = touch_or_insert-IsInStep id now fails t v in
    elim (Bool-cases (touch_or_insert id now fails t).1) [
      | inl e ↦ rw e w
      | inr e ↦ rw e (at_front-IsInStep _ _ w)
    ]

-- A call on the table; `fails` is whether the allocation for its index fails.
pub data Call : Type 0 where
  settings_of : (id : Bytes) (now : ℤ) → Call
  adopts_settings : (id : Bytes) (s : Option ℕ) (now : ℤ) (fails : Bool) → Call
  finds : (id : Bytes) (declared_hash : ℕ) (now : ℤ) → Call
  inserts : (id : Bytes) (declared_hash : ℕ) (resource : Option ℕ) (now : ℤ) (fails : Bool) → Call
  updates_boot_anchor : (id : Bytes) (sample : BootSample) (window now : ℤ) (fails : Bool) → Call

unfoldable pub run : Call → LeafTable → LeafTable
run (Call.settings_of id now) t = (settings id now t).0
run (Call.adopts_settings id s now fails) t = (adopt_settings id s now fails t).0
run (Call.finds id declared_hash now) t = (find id declared_hash now t).0
run (Call.inserts id declared_hash resource now fails) t =
    (insert id declared_hash resource now fails t).0
run (Call.updates_boot_anchor id sample window now fails) t =
    (update_boot_anchor id sample window now fails t).0

run-IsInStep : (c : Call) (t : LeafTable) → IsInStep t → IsInStep (run c t)
unfolding run settings adopt_settings find insert
run-IsInStep (Call.settings_of id now) t v = touch-IsInStep id now t v
run-IsInStep (Call.adopts_settings id s now fails) t v =
    at_seen-IsInStep _ _ _ (touch_or_insert-IsInStep id now fails t v)
run-IsInStep (Call.finds id declared_hash now) t v = touch-IsInStep id now t v
run-IsInStep (Call.inserts id declared_hash resource now fails) t v =
    at_seen-IsInStep _ _ _ (touch_or_insert-IsInStep id now fails t v)
run-IsInStep (Call.updates_boot_anchor id sample window now fails) t v =
    update_boot_anchor-IsInStep id sample window now fails t v

abbrev pub run_all : List Call → LeafTable → LeafTable
run_all [] t = t
run_all (c ∷ cs) t = run_all cs (run c t)

run_all-IsInStep : (cs : List Call) (t : LeafTable) → IsInStep t → IsInStep (run_all cs t)
run_all-IsInStep [] t v = v
run_all-IsInStep (c ∷ cs) t v = run_all-IsInStep cs (run c t) (run-IsInStep c t v)

make_table-IsInStep :
    (max_leaves : ℕ) (idle_timeout : ℤ) → IsInStep (make_table max_leaves idle_timeout)
unfolding make_table has_key has_leaf
make_table-IsInStep max_leaves idle_timeout = record {
  same = λ id. refl;
  same_length = refl;
  leaves = tt;
  keys = tt;
  bounded = omega arith;
  positive = ground arith;
}

-- After any sequence of calls on a new table, whichever allocations for the index fail, the index finds exactly the leaves of the recency list, each listed once, and there are at most as many as the limit that the constructor took, 1 for 0.
pub calls-IsInStep :
    (max_leaves : ℕ) (idle_timeout : ℤ) (cs : List Call)
    → IsInStep (run_all cs (make_table max_leaves idle_timeout))
calls-IsInStep max_leaves idle_timeout cs =
    run_all-IsInStep cs _ (make_table-IsInStep max_leaves idle_timeout)
