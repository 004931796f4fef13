-- ===== src/Sdk/ExpHistogram.antt =====
-- src/sdk/metric_exp_histogram_storage.cpp: the buckets of one exponential-histogram point and the
-- downscaling that keeps them within `max_buckets`. An `int32_t` is an integer: signed overflow is
-- undefined in the source, so every sum is exact here. `double` and the math library's functions on
-- it are a parameter. A count is a `uint64_t`, so its wrap-around is written out.
pub mod Floor
pub mod Total
pub mod Rescale
pub mod Insert
pub mod Fit
pub mod Size
pub mod Bound
pub mod Indexed
pub mod Storage
mod Tests
use microtel.Prelude.{
  ℕ, zero, suc, ◌+◌, ◌-◌, ◌/◌, ◌%◌, ◌^◌, Bool, true, false, ◌&&◌, ◌==◌, if◌then◌else◌, not, List,
  [], ◌∷◌, ◌++◌, length, replicate,
}
use microtel.Prelude.Int.{ℤ, pos, negsuc, pos_part, neg_part, ◌+ℤ◌, ◌-ℤ◌, ltb_ℤ}

-- `counts[k]` is the count of the bucket with absolute index `offset + k`.
pub record ExpBuckets : Type 0 where
  pub offset : ℤ
  pub counts : List ℕ

-- `/` and `%` of the language, which round towards zero, by a positive divisor.
abbrev quotient : ℤ → ℕ → ℤ
quotient (pos n) divisor = pos (n / divisor)
quotient (negsuc n) divisor = pos 0 -ℤ pos (suc n / divisor)

abbrev remainder_is_zero : ℤ → ℕ → Bool
remainder_is_zero (pos n) divisor = n % divisor == 0
remainder_is_zero (negsuc n) divisor = suc n % divisor == 0

-- For `by` 31 the source's divisor is INT32_MIN, with the same result for every other value.
pub floor_div_pow2 : ℤ → ℕ → ℤ
floor_div_pow2 value by =
    let q = quotient value (2 ^ by) in
    if not (remainder_is_zero value (2 ^ by)) && ltb_ℤ value (pos 0) then q -ℤ pos 1 else q

pub last_index : ExpBuckets → ℤ
last_index b = b.offset +ℤ pos (length b.counts) -ℤ pos 1

abbrev pub min_ℤ : ℤ → ℤ → ℤ
min_ℤ a b = if ltb_ℤ b a then b else a

abbrev pub max_ℤ : ℤ → ℤ → ℤ
max_ℤ a b = if ltb_ℤ a b then b else a

-- The sum is an `int32_t` in the source, and exact here.
pub merged_span : ExpBuckets → ℤ → ℕ → ℤ
merged_span b index change =
    let low = floor_div_pow2 (min_ℤ b.offset index) change in
    let high = floor_div_pow2 (max_ℤ (last_index b) index) change in high -ℤ low +ℤ pos 1

-- The loop, from a first `change`; the fuel is the number of turns that may be taken.
pub downscale_from : ℕ → ExpBuckets → ℤ → ℤ → ℕ → ℕ
downscale_from zero b index max_buckets change = change
downscale_from (suc fuel) b index max_buckets change =
    let next = downscale_from fuel b index max_buckets (suc change) in
    if ltb_ℤ max_buckets (merged_span b index change) then next else change

-- An `int32_t` has 31 bits below its sign, so 30 turns are enough for a cap of two buckets or more.
-- With a cap of one the source's loop may have no end (Sdk/ExpHistogram/Fit), and the 31 that is
-- then the answer here is nothing the code does.
pub required_downscale : ExpBuckets → ℤ → ℤ → ℕ
required_downscale b index max_buckets = downscale_from 30 b index max_buckets 1

-- `merged[slot] += c`.
pub add_at : ℕ → ℕ → List ℕ → List ℕ
add_at slot c [] = []
add_at zero c (m ∷ ms) = (m + c) % 2 ^ 64 ∷ ms
add_at (suc slot) c (m ∷ ms) = m ∷ add_at slot c ms

-- The loop of `Rescale` from the bucket with absolute index `abs_index` on.
pub merge_from : ℕ → ℤ → ℤ → List ℕ → List ℕ → List ℕ
merge_from by new_offset abs_index [] merged = merged
merge_from by new_offset abs_index (c ∷ cs) merged =
    merge_from by new_offset (abs_index +ℤ pos 1) cs (
      if c == 0
      then merged
      else add_at (pos_part (floor_div_pow2 abs_index by -ℤ new_offset)) c merged)

pub is_empty : List ℕ → Bool
is_empty [] = true
is_empty (c ∷ cs) = false

pub rescale : ℕ → ExpBuckets → ExpBuckets
rescale by b =
    let new_offset = floor_div_pow2 b.offset by in
    let new_last = floor_div_pow2 (last_index b) by in
    let new_span = new_last -ℤ new_offset +ℤ pos 1 in
    if is_empty b.counts then b else record {
      offset = new_offset;
      counts = merge_from by new_offset b.offset b.counts (replicate (pos_part new_span) 0);
    }

-- The array grown to hold `index`: the three branches of `Place`.
pub grow : ExpBuckets → ℤ → ExpBuckets
grow b index =
    if is_empty b.counts
    then record { offset = index; counts = 0 ∷ [] }
    else if ltb_ℤ index b.offset
    then record { offset = index; counts = replicate (pos_part (b.offset -ℤ index)) 0 ++ b.counts }
    else if ltb_ℤ (last_index b) index
    then record b {
      counts = b.counts ++ replicate (pos_part (index -ℤ b.offset +ℤ pos 1) - length b.counts) 0;
    }
    else b

pub place : ExpBuckets → ℤ → ExpBuckets
place b index =
    let grown = grow b index in
    record grown { counts = add_at (pos_part (index -ℤ grown.offset)) 1 grown.counts }

-- The parts of an `ExpHistoPoint` that `InsertValue` changes.
pub record ExpHistoPoint : Type 0 where
  pub scale : ℤ
  pub positive : ExpBuckets
  pub negative : ExpBuckets

abbrev pub target_of : Bool → ExpHistoPoint → ExpBuckets
target_of is_negative p = if is_negative then p.negative else p.positive

place_in : Bool → ℤ → ExpHistoPoint → ExpHistoPoint
place_in true index p = record p { negative = place p.negative index }
place_in false index p = record p { positive = place p.positive index }

downscale : ℕ → ExpHistoPoint → ExpHistoPoint
downscale change p = record {
  scale = p.scale -ℤ pos change;
  positive = rescale change p.positive;
  negative = rescale change p.negative;
}

-- Whether the target has to be downscaled before it takes the index.
pub overflows : ExpBuckets → ℤ → ℤ → Bool
overflows target index max_buckets =
    not (is_empty target.counts) && ltb_ℤ max_buckets (merged_span target index 0)

-- `InsertValue` behind `MapIndex`.
pub insert_index : ExpHistoPoint → ℤ → Bool → ℤ → ExpHistoPoint
insert_index p index is_negative max_buckets =
    let target = target_of is_negative p in
    let change = required_downscale target index max_buckets in
    if overflows target index max_buckets
    then place_in is_negative (floor_div_pow2 index change) (downscale change p)
    else place_in is_negative index p

-- What `MapIndex` calls: `ldexp_one n` is `std::ldexp(1.0, n)`, and `to_int32` the cast.
pub record MathLibrary (V : Type 0) : Type 0 where
  pub log2 : V → V
  pub ldexp_one : ℤ → V
  pub mul : V → V → V
  pub ceil : V → V
  pub to_int32 : V → ℤ

pub map_index : {V : Type 0} → MathLibrary V → V → ℤ → ℤ
map_index m abs_value scale =
    let scale_factor = m.ldexp_one scale in
    m.to_int32 (m.ceil (m.mul (m.log2 abs_value) scale_factor)) -ℤ pos 1

module _ {V : Type 0} (math : MathLibrary V) where
  pub insert_value : ExpHistoPoint → V → Bool → ℤ → ExpHistoPoint
  unfolding map_index
  insert_value p abs_value is_negative max_buckets =
      insert_index p (map_index math abs_value p.scale) is_negative max_buckets

  -- A point that was created with `max_scale` and took the observations, the newest first, each
  -- with its sign.
  pub insert_all : ℤ → ℤ → List (V × Bool) → ExpHistoPoint
  insert_all max_scale max_buckets [] = record {
    scale = max_scale;
    positive = record { offset = pos 0; counts = [] };
    negative = record { offset = pos 0; counts = [] };
  }
  insert_all max_scale max_buckets (o ∷ os) =
      insert_value (insert_all max_scale max_buckets os) o.0 o.1 max_buckets
