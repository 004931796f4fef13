-- ===== src/Sdk/LeafTable/Tests.antt =====
-- A table of two leaves at most, and the theorems at it.
use microtel.Prelude.{◌≡◌, refl, true, false, List, [], ◌∷◌, none, some}
use microtel.Prelude.Int.{pos, ◌-ℤ◌}
use microtel.Prelude.Bytes.{bytes_eq, codes}
use microtel.Sdk.LeafTable.{
  LeafTable, make_table, has_key, erase_key, unlink, relink, touch, pop_back, evict_back,
  evict_oldest, is_idle, evict_while_idle, evict_idle, push_node, pop_front, emplace, push_front,
  make_space, touch_or_insert, at_seen, at_front, front_of, declared, find, is_null, declare,
  insert,
}
use microtel.Sdk.LeafTable.InStep.{IsInStep}
use microtel.Sdk.LeafTable.InStep.Calls.{Call, run, run_all, calls-IsInStep}

abbrev calls : List Call
calls =
    Call.inserts (codes "a") 1 (some 10) (pos 0) false
    ∷ Call.inserts (codes "b") 2 (some 20) (pos 1) false
    ∷ Call.finds (codes "a") 1 (pos 2)
    ∷ Call.inserts (codes "c") 3 (some 30) (pos 3) false
    ∷ Call.inserts (codes "d") 4 (some 40) (pos 4) true
    ∷ []

abbrev after : LeafTable
after = run_all calls (make_table 2 (pos 100))

-- The leaf that was seen longest ago went, and is counted.
oldest_evicted : (find (codes "b") 2 (pos 4) after).1 ≡ none
unfolding make_table has_key erase_key unlink relink touch pop_back evict_back evict_oldest is_idle
    evict_while_idle evict_idle push_node pop_front emplace push_front make_space touch_or_insert
    at_seen at_front front_of declared find is_null declare insert run bytes_eq ◌-ℤ◌
oldest_evicted = refl

-- The insert that failed took a leaf out and put none in.
evictions : after.evicted ≡ 2
unfolding make_table has_key erase_key unlink relink touch pop_back evict_back evict_oldest is_idle
    evict_while_idle evict_idle push_node pop_front emplace push_front make_space touch_or_insert
    at_seen at_front front_of declared find is_null declare insert run bytes_eq ◌-ℤ◌
evictions = refl

calls-IsInStep_example : IsInStep after
calls-IsInStep_example = calls-IsInStep 2 (pos 100) calls
