-- ===== src/Sdk/ExpHistogram/Tests.antt =====
-- A histogram with four buckets a sign, and the theorems at it. Its values are powers of
-- two, as fractions.

use microtel.Prelude.{
  ℕ, zero, suc, ◌+◌, ◌/◌, ◌^◌, ◌≤◌, ◌<◌, ◌≡◌, refl, Bool, true, false, ltb, if◌then◌else◌, List, [],
  ◌∷◌, arith,
}
use microtel.Prelude.Int.{ℤ, pos, negsuc, pos_part, ◌+ℤ◌, ◌-ℤ◌, ◌*ℤ◌, ◌≤ℤ◌, int_laws}
use microtel.Sdk.ExpHistogram.{
  ExpBuckets, ExpHistoPoint, floor_div_pow2, last_index, merged_span, downscale_from,
  required_downscale, is_empty, rescale, grow, place, place_in, downscale, overflows, insert_index,
  MathLibrary, map_index, insert_value, insert_all, add_at, merge_from,
}
use microtel.Sdk.ExpHistogram.Fit.{required_downscale_lem, downscale_from_straddle}
use microtel.Sdk.ExpHistogram.Bound.{PointFits}
use microtel.Sdk.ExpHistogram.Indexed.{ceil_div, ScalesExactly, Indexed, insert_all-Indexed}

abbrev five : ExpBuckets
five = record { offset = negsuc 2; counts = 4 ∷ 0 ∷ 1 ∷ 2 ∷ [] }

abbrev point : ExpHistoPoint
point = record {
  scale = pos 20;
  positive = five;
  negative = record { offset = pos 0; counts = [] };
}

-- The span of the indices of 2^-1074 and 2^1023 at scale 20 is more than an `int32_t` can hold.
wide_span :
    merged_span (record { offset = negsuc 1126170624; counts = 1 ∷ [] }) (pos 1072693247) 0
    ≡ pos (2 ^ 31 + 51380225)
unfolding merged_span last_index floor_div_pow2 ◌-ℤ◌ ◌+ℤ◌
wide_span = refl

-- Indices -3 to 0 and 9 need two halvings.
halvings : required_downscale five (pos 9) (pos 4) ≡ 2
unfolding required_downscale downscale_from merged_span last_index floor_div_pow2 ◌-ℤ◌ ◌+ℤ◌
halvings = refl

-- Bucket -1 takes indices -3, -2 and -1, bucket 0 index 0, bucket 2 index 9.
halved : (insert_index point (pos 9) false (pos 4)).positive.counts ≡ 5 ∷ 2 ∷ 0 ∷ 1 ∷ []
unfolding insert_index overflows place_in place grow downscale rescale merge_from add_at is_empty
    required_downscale downscale_from merged_span last_index floor_div_pow2 ◌-ℤ◌ ◌+ℤ◌
halved = refl

required_downscale_lem_example :
    (merged_span five (pos 9) (required_downscale five (pos 9) (pos 4)) ≤ℤ pos 4)
    × (1 ≤ required_downscale five (pos 9) (pos 4))
    × ((c : ℕ)
        → 1 ≤ c
        → c < required_downscale five (pos 9) (pos 4)
        → pos 4 +ℤ pos 1 ≤ℤ merged_span five (pos 9) c)
unfolding last_index ◌-ℤ◌ ◌+ℤ◌
required_downscale_lem_example =
    required_downscale_lem five (pos 9) (pos 4) (omega arith, omega arith)
      (omega arith, omega arith) (omega arith, omega arith) (omega arith)

point-Fits : PointFits (pos 4) point
unfolding last_index is_empty ◌-ℤ◌ ◌+ℤ◌
point-Fits = record {
  positive_fits = record {
    size = omega arith;
    range = λ e. ((omega arith, omega arith), (omega arith, omega arith));
  };
  negative_fits = record { size = omega arith; range = λ e. cc };
}

downscale_from_straddle_example :
    downscale_from 1000 (record { offset = negsuc 0; counts = 1 ∷ [] }) (pos 0) (pos 1) 1 ≡ 1001
downscale_from_straddle_example = downscale_from_straddle 1000 0 0 (1 ∷ []) 1

-- `Fraction n k` is n / 2 ^ k: numbers whose products and ceilings are exact. `log2` is that of a
-- power of two.
record Fraction : Type 0 where
  num : ℤ
  places : ℕ

abbrev exponent : ℕ → ℕ → ℕ
exponent zero n = 0
exponent (suc fuel) n = if ltb n 2 then 0 else suc (exponent fuel (n / 2))

abbrev two_to : ℤ → Fraction
two_to (pos n) = record { num = pos (2 ^ n); places = 0 }
two_to (negsuc n) = record { num = pos 1; places = suc n }

abbrev fractions : MathLibrary Fraction
fractions = record {
  log2 = λ x. record {
    num = pos (exponent (pos_part x.num) (pos_part x.num)) -ℤ pos x.places;
    places = 0;
  };
  ldexp_one = two_to;
  mul = λ x y. record { num = x.num *ℤ y.num; places = x.places + y.places };
  ceil = λ x. record { num = ceil_div x.num (2 ^ x.places); places = 0 };
  to_int32 = λ x. x.num;
}

-- Scales from -2 to 0.
at_scales :
    (P : ℤ → ℕ → Type 0)
    → P (pos 0) 0
    → P (pos 0) 1
    → P (pos 0) 2
    → P (negsuc 0) 0
    → P (negsuc 0) 1
    → P (negsuc 1) 0
    → (s : ℤ) (k : ℕ) → negsuc 1 ≤ℤ s -ℤ pos k
    → s ≤ℤ pos 0
    → P s k
at_scales P a b c d e f (pos zero) zero l h = a
at_scales P a b c d e f (pos zero) (suc zero) l h = b
at_scales P a b c d e f (pos zero) (suc (suc zero)) l h = c
at_scales P a b c d e f (negsuc zero) zero l h = d
at_scales P a b c d e f (negsuc zero) (suc zero) l h = e
at_scales P a b c d e f (negsuc (suc zero)) zero l h = f
at_scales P a b c d e f (pos (suc n)) k l h = absurd (omega int_laws)
at_scales P a b c d e f (pos zero) (suc (suc (suc k))) l h = absurd (omega int_laws)
at_scales P a b c d e f (negsuc zero) (suc (suc k)) l h = absurd (omega int_laws)
at_scales P a b c d e f (negsuc (suc zero)) (suc k) l h = absurd (omega int_laws)
at_scales P a b c d e f (negsuc (suc (suc n))) k l h = absurd (omega int_laws)

-- 16, 1/2 below zero, 1/2 and 4; the oldest is last.
abbrev observations : List (Fraction × Bool)
observations =
    (two_to (pos 4), false)
    ∷ (two_to (negsuc 0), true)
    ∷ (two_to (negsuc 0), false)
    ∷ (two_to (pos 2), false)
    ∷ []

abbrev summed : ExpHistoPoint
summed = insert_all fractions (pos 0) (pos 2) observations

sixteen : ScalesExactly fractions (negsuc 1) (pos 0) (two_to (pos 4))
unfolding ◌-ℤ◌ ◌*ℤ◌
sixteen = at_scales _ refl refl refl refl refl refl

half : ScalesExactly fractions (negsuc 1) (pos 0) (two_to (negsuc 0))
unfolding ◌-ℤ◌ ◌*ℤ◌
half = at_scales _ refl refl refl refl refl refl

four : ScalesExactly fractions (negsuc 1) (pos 0) (two_to (pos 2))
unfolding ◌-ℤ◌ ◌*ℤ◌
four = at_scales _ refl refl refl refl refl refl

-- Two downscales were needed.
summed_scale : summed.scale ≡ negsuc 1
unfolding insert_all insert_value map_index insert_index overflows required_downscale downscale_from
    merged_span last_index floor_div_pow2 downscale rescale merge_from add_at is_empty grow place
    place_in ◌-ℤ◌ ◌+ℤ◌ ◌*ℤ◌
summed_scale = refl

insert_all-Indexed_example : Indexed fractions (negsuc 1) (pos 0) summed observations
insert_all-Indexed_example =
    insert_all-Indexed fractions (negsuc 1) (pos 0) (pos 2) observations
      (sixteen, (half, (half, (four, tt)))) (rw summed_scale (omega arith))
