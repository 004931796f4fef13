-- ===== src/Sdk/Samplers/Ratio.antt =====
-- The threshold of a ratio sampler, and what it decides.
use native.Mathlib.Nat.{le-div_iff_mul-le, div-mul-le_self}
use microtel.Prelude.{
  ℕ, ◌/◌, ◌^◌, ◌≤◌, ◌<◌, ◌≡◌, refl, inl, inr, true, ltb, if◌then◌else◌, arith, Bool-cases,
}
use microtel.Prelude.Int.{ℤ, pos, ltb_ℤ, pos_part, ◌≤ℤ◌}
use microtel.Sdk.Samplers.{
  Double, TraceIdRatioSampler, SamplingContext, step64, one, at_least_one, at_most_zero, scaled,
  compute_threshold, uint64_max, normalise_ratio, sample_decision, is_record_and_sample,
}

-- The order of the doubles that are numbers.
abbrev pub IsAtMost : Double → Double → Type 0
IsAtMost Double.nan b = 1 ≤ 0
IsAtMost a Double.nan = 1 ≤ 0
IsAtMost Double.minus_infinity b = Unit
IsAtMost a Double.infinity = Unit
IsAtMost (Double.finite a) (Double.finite b) = a ≤ℤ b
IsAtMost a b = 1 ≤ 0

step64-pos : 0 < step64
unfolding step64
step64-pos = omega arith

div_mono : (m n : ℕ) → m ≤ n → m / step64 ≤ n / step64
div_mono m n l =
    (le-div_iff_mul-le {k = step64} {x = m / step64} {y = n} step64-pos).1
      (omega (arith, div-mul-le_self m step64))

-- Below 1.0 the threshold is a `uint64_t`.
div-one : (n : ℕ) → n < one → n / step64 ≤ uint64_max
unfolding one
div-one n h = elim (Bool-cases (ltb (n / step64) (2 ^ 64))) [
  | inl e ↦ ground arith
  | inr e ↦
      let big = (le-div_iff_mul-le {k = step64} {x = 2 ^ 64} {y = n} step64-pos).0 (ground arith) in
      absurd (omega arith)
]

finite_mono :
    (a b : ℤ) → a ≤ℤ b → compute_threshold (Double.finite a) ≤ compute_threshold (Double.finite b)
unfolding compute_threshold at_least_one at_most_zero scaled
finite_mono a b h = ground (arith, div_mono (pos_part a) (pos_part b), div-one (pos_part a))

pub threshold_bound : (a : Double) → compute_threshold a ≤ uint64_max
unfolding compute_threshold at_least_one at_most_zero scaled
threshold_bound Double.nan = ground arith
threshold_bound Double.infinity = ground arith
threshold_bound Double.minus_infinity = ground arith
threshold_bound (Double.finite a) = ground (arith, div-one (pos_part a))

minus_infinity_lem : compute_threshold Double.minus_infinity ≡ 0
unfolding compute_threshold at_least_one at_most_zero
minus_infinity_lem = refl

infinity_lem : compute_threshold Double.infinity ≡ uint64_max
unfolding compute_threshold at_least_one
infinity_lem = refl

pub compute_threshold_mono :
    (a b : Double) → IsAtMost a b → compute_threshold a ≤ compute_threshold b
compute_threshold_mono (Double.finite a) (Double.finite b) h = finite_mono a b h
compute_threshold_mono (Double.finite a) Double.infinity h =
    omega (arith, threshold_bound (Double.finite a), infinity_lem)
compute_threshold_mono Double.minus_infinity (Double.finite b) h = omega (arith, minus_infinity_lem)
compute_threshold_mono Double.minus_infinity Double.infinity h = omega (arith, minus_infinity_lem)
compute_threshold_mono Double.minus_infinity Double.minus_infinity h = omega arith
compute_threshold_mono Double.infinity Double.infinity h = omega arith
compute_threshold_mono Double.nan b h = absurd (omega arith)
compute_threshold_mono (Double.finite a) Double.nan h = absurd (omega arith)
compute_threshold_mono (Double.finite a) Double.minus_infinity h = absurd (omega arith)
compute_threshold_mono Double.infinity Double.nan h = absurd (omega arith)
compute_threshold_mono Double.infinity (Double.finite b) h = absurd (omega arith)
compute_threshold_mono Double.infinity Double.minus_infinity h = absurd (omega arith)
compute_threshold_mono Double.minus_infinity Double.nan h = absurd (omega arith)

-- A higher threshold samples what a lower one does.
pub sample_decision_mono :
    (t u : TraceIdRatioSampler) (ctx : SamplingContext)
    → t.threshold ≤ u.threshold
    → u.threshold ≤ uint64_max
    → is_record_and_sample (sample_decision t ctx) ≡ true
    → is_record_and_sample (sample_decision u ctx) ≡ true
unfolding sample_decision
sample_decision_mono t u ctx h b s = ground arith

abbrev clamp : ℤ → ℤ
clamp z = if ltb_ℤ z (pos 0) then pos 0 else if ltb_ℤ (pos one) z then pos one else z

normalise-clamp : (z : ℤ) → normalise_ratio (Double.finite z) ≡ Double.finite (clamp z)
unfolding normalise_ratio
normalise-clamp z = ground arith

clamp_mono : (a b : ℤ) → a ≤ℤ b → clamp a ≤ℤ clamp b
clamp_mono a b h = ground arith

clamp-bounds : (a : ℤ) → (pos 0 ≤ℤ clamp a) × (clamp a ≤ℤ pos one)
clamp-bounds a = (ground arith, ground arith)

pub normalise_mono :
    (a b : Double) → IsAtMost a b → IsAtMost (normalise_ratio a) (normalise_ratio b)
unfolding normalise_ratio
normalise_mono (Double.finite a) (Double.finite b) h =
    rw (normalise-clamp a, normalise-clamp b) (clamp_mono a b h)
normalise_mono (Double.finite a) Double.infinity h = rw (normalise-clamp a) (clamp-bounds a).1
normalise_mono Double.minus_infinity (Double.finite b) h = rw (normalise-clamp b) (clamp-bounds b).0
normalise_mono Double.minus_infinity Double.infinity h = omega arith
normalise_mono Double.minus_infinity Double.minus_infinity h = omega arith
normalise_mono Double.infinity Double.infinity h = omega arith
normalise_mono Double.nan b h = absurd (omega arith)
normalise_mono (Double.finite a) Double.nan h = absurd (omega arith)
normalise_mono (Double.finite a) Double.minus_infinity h = absurd (omega arith)
normalise_mono Double.infinity Double.nan h = absurd (omega arith)
normalise_mono Double.infinity (Double.finite b) h = absurd (omega arith)
normalise_mono Double.infinity Double.minus_infinity h = absurd (omega arith)
normalise_mono Double.minus_infinity Double.nan h = absurd (omega arith)
