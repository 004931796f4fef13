-- ===== src/Sdk/LeafTime/Saturation.antt =====
-- The saturating sums of src/sdk/leaf_time.cpp against exact integer sums.
use microtel.Prelude.{◌≡◌, if◌then◌else◌, arith}
use microtel.Prelude.Int.{ℤ, ◌+ℤ◌, ◌-ℤ◌, ltb_ℤ}
use microtel.Sdk.LeafTime.{max64, min64, IsInt64, saturating_add, saturating_sub}

-- The nearest `int64_t`.
unfoldable pub clamp : ℤ → ℤ
clamp a = if ltb_ℤ max64 a then max64 else if ltb_ℤ a min64 then min64 else a

-- On two `int64_t`, `SaturatingAdd` is the exact sum brought to the nearest `int64_t`.
saturating_add-clamp : (a b : ℤ) → IsInt64 a → IsInt64 b → saturating_add a b ≡ clamp (a +ℤ b)
unfolding saturating_add clamp ◌+ℤ◌ ◌-ℤ◌
saturating_add-clamp a b ha hb = ground arith

-- On two `int64_t`, `SaturatingSub` is the exact difference brought to the nearest `int64_t`.
pub saturating_sub-clamp : (a b : ℤ) → IsInt64 a → IsInt64 b → saturating_sub a b ≡ clamp (a -ℤ b)
unfolding saturating_sub clamp ◌+ℤ◌ ◌-ℤ◌
saturating_sub-clamp a b ha hb = ground arith
