-- ===== src/Sdk/ExpHistogram/Storage/Tests.antt =====
-- A storage with room for two attribute sets, and the theorems at it. The values are their own
-- indices at scale 20, and 999 stands for a value that is not finite.
use microtel.Prelude.{
  ℕ, ◌+◌, ◌-◌, ◌%◌, ◌^◌, ◌≡◌, refl, Bool, true, ◌==◌, not, List, [], ◌∷◌, none, some, map,
}
use microtel.Prelude.Int.{ℤ, pos, negsuc, pos_part, neg_part, ltb_ℤ, ◌+ℤ◌, ◌-ℤ◌}
use microtel.Sdk.Diagnostics.{initial}
use microtel.Sdk.SumStorage.{AggregationTemporality, find}
use microtel.Sdk.ExpHistogram.{
  MathLibrary, map_index, floor_div_pow2, last_index, merged_span, downscale_from,
  required_downscale, is_empty, rescale, grow, place, place_in, downscale, overflows, insert_index,
  insert_value, add_at, merge_from,
}
use microtel.Sdk.ExpHistogram.Storage.{
  Doubles, ExponentialHistogramPoint, Call, World, observe, start_or_widen, distribute,
  change_point, has_no_room, snapshot, collect_points, record_finite, record_value, call, calls,
}
use microtel.Sdk.ExpHistogram.Storage.Counted.{
  new, everything, finite_count, all_delta, calls-finite_count,
}
use microtel.Sdk.ExpHistogram.Storage.Balanced.{EachAddsUp, calls-EachAddsUp}

abbrev values : Doubles ℤ
values = record {
  nought = pos 0;
  plus = ◌+ℤ◌;
  abs = λ v. pos (pos_part v + neg_part v);
  less = ltb_ℤ;
  is_zero = λ v. pos_part v + neg_part v == 0;
  is_finite = λ v. not (pos_part v == 999);
}

-- One above the index, so that `MapIndex` gives the index.
abbrev math : MathLibrary ℤ
math = record {
  log2 = λ v. v;
  ldexp_one = λ scale. scale;
  mul = λ v scale. floor_div_pow2 v (20 - pos_part scale) +ℤ pos 1;
  ceil = λ v. v;
  to_int32 = λ v. v;
}

abbrev same_set : ℕ → ℕ → Bool
same_set a b = a == b

abbrev records : ℤ → ℕ → Call ℕ ℕ ℤ
records v k = Call.records v k none

abbrev work : List (Call ℕ ℕ ℤ)
work =
    records (pos 5) 1
    ∷ records (pos 0) 1
    ∷ records (negsuc 2) 2
    ∷ records (pos 9) 3
    ∷ Call.collects AggregationTemporality.delta
    ∷ records (pos 999) 1
    ∷ records (pos 1) 4
    ∷ records (pos 12) 4
    ∷ Call.collects AggregationTemporality.delta
    ∷ records (pos 2) 1
    ∷ []

abbrev after : World ℕ ℕ ℤ
after = calls values math same_set 0 work (new (pos 20) (pos 4) 2 (some initial))

abbrev summary : ExponentialHistogramPoint ℕ ℕ ℤ → ℕ × ℕ × ℕ × ℤ
summary p = (p.attributes, p.count, p.zero_count, p.scale)

-- The first set has a value and a zero; the third is counted under the overflow set, 0; the point of
-- the second collection was halved twice.
two_reports :
    map (map summary) after.reported
    ≡ ((4, 2, 0, pos 18) ∷ [])
      ∷ ((1, 2, 1, pos 20) ∷ (2, 1, 0, pos 20) ∷ (0, 1, 0, pos 20) ∷ [])
      ∷ []
unfolding calls call record_value record_finite collect_points snapshot has_no_room change_point
    observe start_or_widen distribute insert_value map_index insert_index overflows place_in place
    grow downscale rescale merge_from add_at is_empty required_downscale downscale_from merged_span
    last_index floor_div_pow2 find ◌-ℤ◌ ◌+ℤ◌
two_reports = refl

work-delta : all_delta work ≡ true
unfolding all_delta
work-delta = refl

calls-finite_count_example : everything after % 2 ^ 64 ≡ finite_count values work % 2 ^ 64
calls-finite_count_example =
    calls-finite_count values math same_set 0 work (pos 20) (pos 4) 2 (some initial) work-delta

calls-EachAddsUp_example : EachAddsUp after.reported
calls-EachAddsUp_example =
    calls-EachAddsUp values math same_set 0 work (pos 20) (pos 4) 2 (some initial)
