-- ===== src/Sdk/LeafTime/Trust.antt =====
-- When `SyncRelative` of src/sdk/leaf_time.cpp trusts a leaf's own timestamps.
use microtel.Prelude.{
  ◌^◌, ◌-◌, ◌≡◌, Bool, true, false, ◌&&◌, ◌||◌, not, if◌then◌else◌, Option, none, some, arith,
}
use microtel.Prelude.Int.{ℤ, pos, ◌+ℤ◌, ◌-ℤ◌, ◌≤ℤ◌, ltb_ℤ}
use microtel.Sdk.LeafTime.{IsInt64, TimeCorrection, SyncLimits, saturating_sub, sync_relative}
use microtel.Sdk.LeafTime.Saturation.{clamp, saturating_sub-clamp}

unfoldable pub is_trusted : Option TimeCorrection → Bool
is_trusted none = false
is_trusted (some c) = true

abbrev pub leb_ℤ : ℤ → ℤ → Bool
leb_ℤ a b = not (ltb_ℤ b a)

clamp-IsInt64 : (d : ℤ) → IsInt64 (clamp d)
unfolding clamp
clamp-IsInt64 d = (ground arith, ground arith)

-- The skew limit is not INT64_MAX, so saturation does not hide a larger difference.
abs_clamp :
    (d limit : ℤ)
    → limit ≤ℤ pos (2 ^ 63 - 2)
    → ltb_ℤ limit
        (if not (ltb_ℤ (clamp d) (pos 0)) then clamp d else saturating_sub (pos 0) (clamp d))
      ≡ not (leb_ℤ d limit && leb_ℤ (pos 0 -ℤ d) limit)
unfolding clamp saturating_sub ◌-ℤ◌ ◌+ℤ◌
abs_clamp d limit h = ground arith

negated : (a b : ℤ) → pos 0 -ℤ (a -ℤ b) ≡ b -ℤ a
unfolding ◌-ℤ◌
negated a b = ground arith

four :
    (a b c d skewed : Bool)
    → skewed ≡ not (c && d)
    → is_trusted
        (if not (a && b) || skewed then none else some (record { offset = pos 0; fixed = none }))
      ≡ (a && b && c && d)
unfolding is_trusted
four a b c d skewed h = ground arith

-- For `int64_t` times and a skew limit below INT64_MAX, `SyncRelative` trusts the timestamps exactly if the age of the synchronisation is between 0 and its limit and the encode time differs from the receive time by the skew limit at most, in either direction, with exact differences.
sync_relative-trusted :
    (received encode_time sync_age : ℤ) (limits : SyncLimits)
    → IsInt64 received
    → IsInt64 encode_time
    → limits.max_clock_skew ≤ℤ pos (2 ^ 63 - 2)
    → is_trusted (sync_relative received encode_time sync_age limits) ≡ (
        leb_ℤ (pos 0) sync_age
        && leb_ℤ sync_age limits.max_sync_age
        && leb_ℤ (received -ℤ encode_time) limits.max_clock_skew
        && leb_ℤ (encode_time -ℤ received) limits.max_clock_skew)
unfolding sync_relative
sync_relative-trusted received encode_time sync_age limits hr he hs =
    four (leb_ℤ (pos 0) sync_age) (leb_ℤ sync_age limits.max_sync_age)
      (leb_ℤ (received -ℤ encode_time) limits.max_clock_skew)
      (leb_ℤ (encode_time -ℤ received) limits.max_clock_skew) _
      (rw (saturating_sub-clamp received encode_time hr he, ← negated received encode_time)
        (abs_clamp (received -ℤ encode_time) limits.max_clock_skew hs))
