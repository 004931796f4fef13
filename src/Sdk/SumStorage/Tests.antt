-- ===== src/Sdk/SumStorage/Tests.antt =====
-- A storage of two attribute sets that gets three, and the theorems at it.
use microtel.Prelude.{ℕ, ◌≡◌, refl, Bool, true, ◌==◌, List, [], ◌∷◌, none, some}
use microtel.Prelude.Int.{ℤ, pos, negsuc, ◌+ℤ◌}
use microtel.Sdk.Diagnostics.{initial}
use microtel.Sdk.SumStorage.{
  Call, AggregationTemporality, find, add_to, needs_drop, add, call, calls,
}
use microtel.Sdk.SumStorage.Conserve.{
  sum_points, sum_reported, sum_added, all_collect, new, calls-delta,
}

abbrev same_set : ℕ → ℕ → Bool
same_set a b = a == b

abbrev adds : ℤ → ℕ → Call ℕ ℕ
adds v k = Call.adds v k none

abbrev work : List (Call ℕ ℕ)
work = adds (pos 5) 1 ∷ adds (pos 2) 2 ∷ adds (negsuc 0) 3 ∷ adds (pos 4) 1 ∷ []

abbrev read : AggregationTemporality → List (Call ℕ ℕ)
read t = adds (pos 5) 1 ∷ adds (pos 2) 2 ∷ adds (negsuc 0) 3 ∷ Call.collects t ∷ adds (pos 4) 1 ∷ []

-- The third set is counted under the overflow set, 0.
third_set :
    (calls same_set 0 work (new 2 (some initial))).storage.points
    ≡ (1, pos 9) ∷ (2, pos 2) ∷ (0, negsuc 0) ∷ []
unfolding calls call add add_to needs_drop find ◌+ℤ◌
third_set = refl

delta_all : all_collect true (read AggregationTemporality.delta) ≡ true
unfolding all_collect
delta_all = refl

calls-delta_example :
    sum_reported
        (calls same_set 0 (read AggregationTemporality.delta) (new 2 (some initial))).reported
      +ℤ sum_points
          (calls same_set 0
            (read AggregationTemporality.delta)
            (new 2 (some initial))).storage.points
    ≡ sum_added (read AggregationTemporality.delta)
calls-delta_example =
    calls-delta same_set 0 (read AggregationTemporality.delta) 2 (some initial) delta_all
