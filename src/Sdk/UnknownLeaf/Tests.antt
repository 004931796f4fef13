-- ===== src/Sdk/UnknownLeaf/Tests.antt =====
-- A cache of two answers.
use microtel.Prelude.{◌≡◌, refl, true, false, List, [], ◌∷◌}
use microtel.Prelude.Int.{pos, ◌-ℤ◌}
use microtel.Prelude.Bytes.{codes, bytes_eq}
use microtel.Sdk.UnknownLeaf.{
  make_cache, has_key, erase_key, erase_node, node, erase, contains, erase_front, expire, make_room,
  push_node, pop_back, emplace, push, insert,
}
use microtel.Sdk.UnknownLeaf.Bounded.{IsBounded, Call, run, run-make_cache}

abbrev calls : List Call
calls =
    Call.refuses (codes "a") (pos 0) false
    ∷ Call.refuses (codes "b") (pos 1) false
    ∷ Call.refuses (codes "a") (pos 1) false
    ∷ Call.refuses (codes "c") (pos 2) false
    ∷ Call.refuses (codes "d") (pos 3) true
    ∷ []

-- The oldest answer went for the third one.
forgotten : (contains (codes "a") (pos 3) (run calls (make_cache 2 (pos 60)))).1 ≡ false
unfolding make_cache run insert contains has_key erase_key erase_node node erase erase_front expire
    make_room push push_node pop_back emplace bytes_eq ◌-ℤ◌
forgotten = refl

-- An answer is good for as long as the time to live.
expired : (contains (codes "c") (pos 63) (run calls (make_cache 2 (pos 60)))).1 ≡ false
unfolding make_cache run insert contains has_key erase_key erase_node node erase erase_front expire
    make_room push push_node pop_back emplace bytes_eq ◌-ℤ◌
expired = refl

run-make_cache_example : IsBounded (run calls (make_cache 2 (pos 60)))
run-make_cache_example = run-make_cache 2 (pos 60) calls
