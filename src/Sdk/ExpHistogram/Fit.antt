-- ===== src/Sdk/ExpHistogram/Fit.antt =====
-- `RequiredDownscale` ends, and the buckets of both signs stay within `max_buckets`.
use native.Mathlib.Nat.{div-eq_of_lt, div-le_self, div-one}
use microtel.Prelude.{
  ℕ, zero, suc, ◌+◌, ◌^◌, ◌≤◌, ◌<◌, ◌≡◌, ap, ◌∙◌, inl, inr, true, false, ◌==◌, List, arith,
  Bool-cases,
}
use microtel.Prelude.Int.{
  ℤ, pos, negsuc, pos_part, neg_part, ◌+ℤ◌, ◌-ℤ◌, ◌≤ℤ◌, ltb_ℤ, int_laws, eq_of_parts,
}
use microtel.Sdk.ExpHistogram.{
  ExpBuckets, floor_div_pow2, last_index, min_ℤ, max_ℤ, merged_span, downscale_from,
  required_downscale, is_empty,
}
use microtel.Sdk.ExpHistogram.Floor.{
  floor_div, floor_div_pow2-floor_div, floor_div_pow2_mono, floor_div_pow2_step,
}
use microtel.Sdk.ExpHistogram.Total.{+ℤ_zero}

-- An `int32_t` but the lowest, which 31 turns of the source would divide by itself.
abbrev pub IsInt32 : ℤ → Type 0
IsInt32 i = (pos_part i < 2147483648) × (neg_part i < 2147483648)

floor_div-31 :
    (i : ℤ) → IsInt32 i → (negsuc 0 ≤ℤ floor_div i (2 ^ 31)) × (floor_div i (2 ^ 31) ≤ℤ pos 0)
unfolding floor_div
floor_div-31 (pos n) h = rw (div-eq_of_lt {n = n} {m = 2147483648} h.0) (omega arith, omega arith)
floor_div-31 (negsuc n) h =
    rw (div-eq_of_lt {n = n} {m = 2147483648} (omega arith)) (omega arith, omega arith)

floor_div_pow2-31 :
    (i : ℤ) → IsInt32 i → (negsuc 0 ≤ℤ floor_div_pow2 i 31) × (floor_div_pow2 i 31 ≤ℤ pos 0)
floor_div_pow2-31 i h = rw (floor_div_pow2-floor_div i 31) (floor_div-31 i h)

floor_div-IsInt32 : (i : ℤ) (d : ℕ) → IsInt32 i → IsInt32 (floor_div i d)
unfolding floor_div
floor_div-IsInt32 (pos n) d h = (omega (arith, div-le_self n d), omega arith)
floor_div-IsInt32 (negsuc n) d h = (omega arith, omega (arith, div-le_self n d))

pub floor_div_pow2-IsInt32 : (i : ℤ) (by : ℕ) → IsInt32 i → IsInt32 (floor_div_pow2 i by)
floor_div_pow2-IsInt32 i by h = rw (floor_div_pow2-floor_div i by) (floor_div-IsInt32 i (2 ^ by) h)

-- By one nothing is divided.
floor_div_one : (i : ℤ) → floor_div i (2 ^ 0) ≡ i
unfolding floor_div
floor_div_one (pos n) = ap pos (div-one n)
floor_div_one (negsuc n) = ap negsuc (div-one n)

pub floor_div_pow2-zero : (i : ℤ) → floor_div_pow2 i 0 ≡ i
floor_div_pow2-zero i = floor_div_pow2-floor_div i 0 ∙ floor_div_one i

pub floor-min :
    (a b : ℤ) (by : ℕ)
    → floor_div_pow2 (min_ℤ a b) by ≡ min_ℤ (floor_div_pow2 a by) (floor_div_pow2 b by)
floor-min a b by =
    let m = floor_div_pow2_mono a b by in
    let w = floor_div_pow2_mono b a by in
    elim (Bool-cases (ltb_ℤ b a)) [
      | inl e ↦ rw e (eq_of_parts _ _ (ground arith))
      | inr e ↦ rw e (eq_of_parts _ _ (ground arith))
    ]

pub floor-max :
    (a b : ℤ) (by : ℕ)
    → floor_div_pow2 (max_ℤ a b) by ≡ max_ℤ (floor_div_pow2 a by) (floor_div_pow2 b by)
floor-max a b by =
    let m = floor_div_pow2_mono a b by in
    let w = floor_div_pow2_mono b a by in
    elim (Bool-cases (ltb_ℤ a b)) [
      | inl e ↦ rw e (eq_of_parts _ _ (ground arith))
      | inr e ↦ rw e (eq_of_parts _ _ (ground arith))
    ]

-- The floors of two numbers are no further apart than the numbers.
pub floor_contract :
    (a : ℤ) (n by : ℕ) → floor_div_pow2 (a +ℤ pos n) by ≤ℤ floor_div_pow2 a by +ℤ pos n
floor_contract a zero by = rw (+ℤ_zero a, +ℤ_zero (floor_div_pow2 a by)) (omega arith)
floor_contract a (suc n) by =
    let step = floor_div_pow2_step (a +ℤ pos n) by in
    let rest = floor_contract a n by in
    let e : a +ℤ pos n +ℤ pos 1 ≡ a +ℤ pos (suc n) = omega int_laws in rw (← e) (omega int_laws)

pub suc_le : (a b : ℤ) → ltb_ℤ a b ≡ true → a +ℤ pos 1 ≤ℤ b
unfolding ◌+ℤ◌
suc_le a b h = ground arith

pub downscale_from_lem :
    (fuel : ℕ) (b : ExpBuckets) (i n : ℤ) (change : ℕ)
    → merged_span b i (change + fuel) ≤ℤ n
    → (merged_span b i (downscale_from fuel b i n change) ≤ℤ n)
      × (change ≤ downscale_from fuel b i n change)
      × ((c : ℕ)
          → change ≤ c
          → c < downscale_from fuel b i n change
          → n +ℤ pos 1 ≤ℤ merged_span b i c)
unfolding downscale_from
downscale_from_lem zero b i n change h =
    let e : change + 0 ≡ change = omega arith in
    (rw e at h, omega arith, λ c l k. absurd (omega arith))
downscale_from_lem (suc fuel) b i n change h =
    let e : change + suc fuel ≡ suc change + fuel = omega arith in
    let rest = downscale_from_lem fuel b i n (suc change) (rw e at h) in
    elim (Bool-cases (ltb_ℤ n (merged_span b i change))) [
      | inl t ↦ rw t (
        rest.0,
        omega (arith, rest.1),
        λ c l k. elim (Bool-cases (c == change)) [
          | inl q ↦
              let q' : c ≡ change = ground arith in
              let over : n +ℤ pos 1 ≤ℤ merged_span b i change =
                suc_le n (merged_span b i change) t in
              rw q' over
          | inr q ↦ rest.2 c (ground arith) k
        ],
      )
      | inr t ↦ rw t (ground arith, omega arith, λ c l k. absurd (omega arith))
    ]

-- An array that is empty, or whose ends are `int32_t`s.
abbrev pub InRange : ExpBuckets → Type 0
InRange b = is_empty b.counts ≡ false → IsInt32 b.offset × IsInt32 (last_index b)

pub min-IsInt32 : (a b : ℤ) → IsInt32 a → IsInt32 b → IsInt32 (min_ℤ a b)
min-IsInt32 a b h k = elim (Bool-cases (ltb_ℤ b a)) [ inl e ↦ rw e k | inr e ↦ rw e h ]

pub max-IsInt32 : (a b : ℤ) → IsInt32 a → IsInt32 b → IsInt32 (max_ℤ a b)
max-IsInt32 a b h k = elim (Bool-cases (ltb_ℤ a b)) [ inl e ↦ rw e k | inr e ↦ rw e h ]

-- After 31 turns every index is -1 or 0.
merged_span-31 :
    (b : ExpBuckets) (i : ℤ)
    → IsInt32 b.offset
    → IsInt32 (last_index b)
    → IsInt32 i
    → merged_span b i 31 ≤ℤ pos 2
unfolding merged_span
merged_span-31 b i o l h =
    let low = floor_div_pow2-31 (min_ℤ b.offset i) (min-IsInt32 b.offset i o h) in
    let high = floor_div_pow2-31 (max_ℤ (last_index b) i) (max-IsInt32 (last_index b) i l h) in
    omega (int_laws, low.0, high.1)

-- The loop of `RequiredDownscale` ends: for `int32_t` indices above the lowest and room for two
-- buckets its 31 turns are enough, and its result is the smallest change from 1 on that fits.
pub required_downscale_lem :
    (b : ExpBuckets) (i n : ℤ)
    → IsInt32 b.offset
    → IsInt32 (last_index b)
    → IsInt32 i
    → pos 2 ≤ℤ n
    → (merged_span b i (required_downscale b i n) ≤ℤ n)
      × (1 ≤ required_downscale b i n)
      × ((c : ℕ) → 1 ≤ c → c < required_downscale b i n → n +ℤ pos 1 ≤ℤ merged_span b i c)
unfolding required_downscale
required_downscale_lem b i n o l h two =
    let all = merged_span-31 b i o l h in downscale_from_lem 30 b i n 1 (omega arith)

floor_div-straddle :
    (n m d : ℕ) → (floor_div (negsuc n) d ≤ℤ negsuc 0) × (pos 0 ≤ℤ floor_div (pos m) d)
unfolding floor_div
floor_div-straddle n m d = (omega arith, omega arith)

min-le : (a b : ℤ) → min_ℤ a b ≤ℤ a
min-le a b = ground arith

le-max : (a b : ℤ) → b ≤ℤ max_ℤ a b
le-max a b = ground arith

two_apart : (lo hi : ℤ) → lo ≤ℤ negsuc 0 → pos 0 ≤ℤ hi → ltb_ℤ (pos 1) (hi -ℤ lo +ℤ pos 1) ≡ true
unfolding ◌+ℤ◌ ◌-ℤ◌
two_apart lo hi h k = ground arith

merged_span_straddle :
    (n m : ℕ) (cs : List ℕ) (change : ℕ)
    → ltb_ℤ (pos 1) (merged_span (record { offset = negsuc n; counts = cs }) (pos m) change) ≡ true
unfolding merged_span
merged_span_straddle n m cs change =
    let b : ExpBuckets = record { offset = negsuc n; counts = cs } in
    let bottom = min_ℤ (negsuc n) (pos m) in
    let top = max_ℤ (last_index b) (pos m) in
    let low = floor_div_pow2_mono bottom (negsuc n) change (min-le (negsuc n) (pos m)) in
    let high = floor_div_pow2_mono (pos m) top change (le-max (last_index b) (pos m)) in
    let signs = floor_div-straddle n m (2 ^ change) in
    let below = rw (← floor_div_pow2-floor_div (negsuc n) change) at signs.0 in
    let above = rw (← floor_div_pow2-floor_div (pos m) change) at signs.1 in
    two_apart (floor_div_pow2 bottom change) (floor_div_pow2 top change) (omega arith) (omega arith)

-- With a cap of one bucket the loop never ends when the buckets start below zero and the index is
-- not: whatever number of turns it may take, it takes them all (the shifts past 31, which the source
-- leaves undefined, taken exactly).
pub downscale_from_straddle :
    (fuel : ℕ) (n m : ℕ) (cs : List ℕ) (change : ℕ)
    → downscale_from fuel (record { offset = negsuc n; counts = cs }) (pos m) (pos 1) change
      ≡ change + fuel
unfolding downscale_from
downscale_from_straddle zero n m cs change = omega arith
downscale_from_straddle (suc fuel) n m cs change =
    rw (merged_span_straddle n m cs change)
      (omega (arith, downscale_from_straddle fuel n m cs (suc change)))
