-- ===== src/Sdk/ExpHistogram/Bound.antt =====
-- An insertion keeps the buckets of both signs within `max_buckets`.
use microtel.Prelude.{ℕ, ◌≡◌, refl, inl, inr, Bool, true, false, arith, Bool-cases}
use microtel.Prelude.Int.{ℤ, pos, ◌+ℤ◌, ◌-ℤ◌, ◌≤ℤ◌}
use microtel.Sdk.ExpHistogram.{
  ExpBuckets, ExpHistoPoint, floor_div_pow2, last_index, min_ℤ, max_ℤ, merged_span,
  required_downscale, is_empty, rescale, place, target_of, place_in, downscale, overflows,
  insert_index,
}
use microtel.Sdk.ExpHistogram.Rescale.{rescale-Rescaled}
use microtel.Sdk.ExpHistogram.Size.{Fits, place-Fits, rescale-Fits}
use microtel.Sdk.ExpHistogram.Fit.{
  IsInt32, floor_div_pow2-IsInt32, floor_div_pow2-zero, floor-min, floor-max,
  required_downscale_lem,
}

merged_span-zero :
    (b : ExpBuckets) (i : ℤ)
    → merged_span b i 0 ≡ max_ℤ (last_index b) i -ℤ min_ℤ b.offset i +ℤ pos 1
unfolding merged_span
merged_span-zero b i =
    rw (floor_div_pow2-zero (min_ℤ b.offset i), floor_div_pow2-zero (max_ℤ (last_index b) i)) refl

-- The target of an insertion that must downscale: rescaled, it has room for the index.
rescaled-Fits :
    (b : ExpBuckets) (i n : ℤ) (change : ℕ)
    → pos 1 ≤ℤ n
    → is_empty b.counts ≡ false
    → Fits n b
    → IsInt32 i
    → merged_span b i change ≤ℤ n
    → Fits n (place (rescale change b) (floor_div_pow2 i change))
unfolding merged_span
rescaled-Fits b i n change one e f h room =
    let r = rescale-Rescaled change b e in
    let k = rescale-Fits change b n f in
    place-Fits (rescale change b) (floor_div_pow2 i change) n one k.range
      (floor_div_pow2-IsInt32 i change h)
      (λ q.
        let room' = rw (floor-min b.offset i change, floor-max (last_index b) i change) at room in
        rw (r.width, r.first) room')

-- The branch of an insertion that needs no downscale.
direct-Fits :
    (b : ExpBuckets) (i n : ℤ)
    → pos 1 ≤ℤ n
    → Fits n b
    → IsInt32 i
    → overflows b i n ≡ false
    → Fits n (place b i)
unfolding overflows
direct-Fits b i n one f h o = place-Fits b i n one f.range h (λ e.
    let o' = rw e at o in
    let k : merged_span b i 0 ≤ℤ n = ground arith in rw (← merged_span-zero b i) k)

overflows-full : (b : ExpBuckets) (i n : ℤ) → overflows b i n ≡ true → is_empty b.counts ≡ false
unfolding overflows
overflows-full b i n h = ground arith

pub record PointFits (n : ℤ) (p : ExpHistoPoint) : Type 0 where
  pub positive_fits : Fits n p.positive
  pub negative_fits : Fits n p.negative

place_in-PointFits :
    (n i : ℤ) (is_negative : Bool) (p : ExpHistoPoint)
    → PointFits n p
    → Fits n (place (target_of is_negative p) i)
    → PointFits n (place_in is_negative i p)
unfolding place_in
place_in-PointFits n i true p f h = record { positive_fits = f.positive_fits; negative_fits = h }
place_in-PointFits n i false p f h = record { positive_fits = h; negative_fits = f.negative_fits }

downscale-PointFits :
    (n : ℤ) (change : ℕ) (p : ExpHistoPoint) → PointFits n p → PointFits n (downscale change p)
unfolding downscale
downscale-PointFits n change p f = record {
  positive_fits = rescale-Fits change p.positive n f.positive_fits;
  negative_fits = rescale-Fits change p.negative n f.negative_fits;
}

target_of-downscale :
    (is_negative : Bool) (change : ℕ) (p : ExpHistoPoint)
    → target_of is_negative (downscale change p) ≡ rescale change (target_of is_negative p)
unfolding downscale
target_of-downscale true change p = refl
target_of-downscale false change p = refl

target_of-Fits :
    (n : ℤ) (is_negative : Bool) (p : ExpHistoPoint)
    → PointFits n p
    → Fits n (target_of is_negative p)
target_of-Fits n true p f = f.negative_fits
target_of-Fits n false p f = f.positive_fits

-- With room for at least two buckets a sign, the insertion of an `int32_t` index above the lowest keeps
-- both arrays of a point within `max_buckets`, and their indices in that range.
insert_index-PointFits :
    (p : ExpHistoPoint) (index : ℤ) (is_negative : Bool) (max_buckets : ℤ)
    → pos 2 ≤ℤ max_buckets
    → IsInt32 index
    → PointFits max_buckets p
    → PointFits max_buckets (insert_index p index is_negative max_buckets)
unfolding insert_index
insert_index-PointFits p i s n two h f =
    let target = target_of s p in
    let change = required_downscale target i n in
    let t = target_of-Fits n s p f in
    elim (Bool-cases (overflows target i n)) [
      | inl o ↦
          let e = overflows-full target i n o in
          let ends = t.range e in
          let room = required_downscale_lem target i n ends.0 ends.1 h two in
          rw o (
            place_in-PointFits n (floor_div_pow2 i change) s (downscale change p)
              (downscale-PointFits n change p f)
              (rw (target_of-downscale s change p)
                (rescaled-Fits target i n change (omega arith) e t h room.0)))
      | inr o ↦ rw o (place_in-PointFits n i s p f (direct-Fits target i n (omega arith) t h o))
    ]
