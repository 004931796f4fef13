-- ===== src/Sdk/ExpHistogram/Size.antt =====
-- A bucket array stays within `max_buckets`, and their indices within `int32_t`.
use microtel.Prelude.{
  ℕ, zero, ◌+◌, ◌-◌, ◌≡◌, refl, ap, ◌∙◌, inl, inr, true, false, [], ◌∷◌, ◌++◌, length, replicate,
  arith, Bool-cases, length-replicate, length-append,
}
use microtel.Prelude.Int.{ℤ, pos, pos_part, neg_part, ◌+ℤ◌, ◌-ℤ◌, ◌≤ℤ◌, ltb_ℤ, int_laws}
use microtel.Sdk.ExpHistogram.{
  ExpBuckets, floor_div_pow2, last_index, min_ℤ, max_ℤ, is_empty, rescale, grow, place,
}
use microtel.Sdk.ExpHistogram.Total.{length-add_at}
use microtel.Sdk.ExpHistogram.Rescale.{
  last_index_parts, is_empty-length, offset-le-last_index, rescale-Rescaled,
}
use microtel.Sdk.ExpHistogram.Fit.{
  IsInt32, InRange, floor_div_pow2-IsInt32, floor_contract, suc_le, min-IsInt32, max-IsInt32,
}

-- At most `n` buckets, at `int32_t` indices.
pub record Fits (n : ℤ) (b : ExpBuckets) : Type 0 where
  pub size : pos (length b.counts) ≤ℤ n
  pub range : InRange b

-- The ends of a grown array.
record Widened (b : ExpBuckets) (i : ℤ) (g : ExpBuckets) : Type 0 where
  low : g.offset ≡ min_ℤ b.offset i
  high : last_index g ≡ max_ℤ (last_index b) i

sub_pos_part :
    (o i : ℤ) → i ≤ℤ o → pos_part (o -ℤ i) + pos_part i + neg_part o ≡ pos_part o + neg_part i
unfolding ◌-ℤ◌
sub_pos_part o i h = ground arith

span_suc : (i o : ℤ) → o ≤ℤ i → pos_part (i -ℤ o +ℤ pos 1) ≡ pos_part (i -ℤ o) + 1
unfolding ◌-ℤ◌ ◌+ℤ◌
span_suc i o h = ground arith

last_front :
    (o i : ℤ) (n : ℕ) → i ≤ℤ o → i +ℤ pos (pos_part (o -ℤ i) + n) -ℤ pos 1 ≡ o +ℤ pos n -ℤ pos 1
last_front o i n h = omega (int_laws, sub_pos_part o i h)

last_back :
    (o i : ℤ) (n : ℕ)
    → o ≤ℤ i
    → o +ℤ pos n ≤ℤ i +ℤ pos 1
    → o +ℤ pos (n + (pos_part (i -ℤ o +ℤ pos 1) - n)) -ℤ pos 1 ≡ i
last_back o i n h k =
    let le : o ≤ℤ i +ℤ pos 1 = omega int_laws in
    let s = sub_pos_part i o h in
    let t : pos_part (i -ℤ o +ℤ pos 1) ≡ pos_part (i -ℤ o) + 1 = span_suc i o h in omega int_laws

grow-Widened : (b : ExpBuckets) (i : ℤ) → is_empty b.counts ≡ false → Widened b i (grow b i)
unfolding grow last_index
grow-Widened b i e =
    let zeros = λ (n : ℕ). replicate n zero in
    let before = pos_part (b.offset -ℤ i) in
    let after = pos_part (i -ℤ b.offset +ℤ pos 1) - length b.counts in
    let front : length (zeros before ++ b.counts) ≡ before + length b.counts =
      length-append (zeros before) b.counts
      ∙ ap (λ (m : ℕ). m + length b.counts) (length-replicate before zero) in
    let back : length (b.counts ++ zeros after) ≡ length b.counts + after =
      length-append b.counts (zeros after)
      ∙ ap (λ (m : ℕ). length b.counts + m) (length-replicate after zero) in
    let le = offset-le-last_index b e in
    let parts = last_index_parts b in
    elim (Bool-cases (ltb_ℤ i b.offset)) [
      | inl l ↦
          rw (e, l)
            (record {
              low = rw l refl;
              high =
                  let lt : ltb_ℤ (last_index b) i ≡ false = ground arith in
                  rw (front, lt) (last_front b.offset i (length b.counts) (ground arith));
            })
      | inr l ↦ elim (Bool-cases (ltb_ℤ (last_index b) i)) [
        | inl h ↦
            rw (e, l, h)
              (record {
                low = rw l refl;
                high =
                    rw (back, h)
                      (last_back b.offset i (length b.counts) (ground arith) (
                        let lt : last_index b +ℤ pos 1 ≤ℤ i = suc_le (last_index b) i h in
                        omega (int_laws, parts)));
              })
        | inr h ↦ rw (e, l, h) (record { low = rw l refl; high = rw h refl })
      ]
    ]

place-last_index : (b : ExpBuckets) (i : ℤ) → last_index (place b i) ≡ last_index (grow b i)
unfolding place last_index
place-last_index b i =
    rw (length-add_at (pos_part (i -ℤ (grow b i).offset)) 1 (grow b i).counts) refl

place-offset : (b : ExpBuckets) (i : ℤ) → (place b i).offset ≡ (grow b i).offset
unfolding place
place-offset b i = refl

place-Widened : (b : ExpBuckets) (i : ℤ) → is_empty b.counts ≡ false → Widened b i (place b i)
place-Widened b i e = record {
  low = place-offset b i ∙ (grow-Widened b i e).low;
  high = place-last_index b i ∙ (grow-Widened b i e).high;
}

-- The first index an empty array takes.
place_first :
    (b : ExpBuckets) (i : ℤ)
    → is_empty b.counts ≡ true
    → ((place b i).offset ≡ i) × (last_index (place b i) ≡ i) × (length (place b i).counts ≡ 1)
unfolding place grow last_index
place_first b i e =
    rw (e, length-add_at (pos_part (i -ℤ i)) 1 (0 ∷ [])) (refl, omega int_laws, refl)

-- The number of buckets between the ends.
size_lem :
    (b : ExpBuckets) (n : ℤ) → last_index b -ℤ b.offset +ℤ pos 1 ≤ℤ n → pos (length b.counts) ≤ℤ n
size_lem b n h = omega (int_laws, last_index_parts b)

pub place-Fits :
    (b : ExpBuckets) (i n : ℤ)
    → pos 1 ≤ℤ n
    → InRange b
    → IsInt32 i
    → (is_empty b.counts ≡ false → max_ℤ (last_index b) i -ℤ min_ℤ b.offset i +ℤ pos 1 ≤ℤ n)
    → Fits n (place b i)
place-Fits b i n one r h narrow = elim (Bool-cases (is_empty b.counts)) [
  | inl e ↦
      let f = place_first b i e in record { size = rw f.2 one; range = λ q. rw (f.1, f.0) (h, h) }
  | inr e ↦
      let w = place-Widened b i e in
      record {
        size = size_lem (place b i) n (rw (w.high, w.low) (narrow e));
        range = λ q.
            rw (w.high, w.low)
              (min-IsInt32 b.offset i (r e).0 h, max-IsInt32 (last_index b) i (r e).1 h);
      }
]

-- Rescaling keeps the indices in range and does not widen the array.
rescale_empty : (by : ℕ) (b : ExpBuckets) → is_empty b.counts ≡ true → rescale by b ≡ b
unfolding rescale
rescale_empty by b e = rw e refl

contract_lem :
    (b : ExpBuckets) (by : ℕ) (n : ℤ)
    → is_empty b.counts ≡ false
    → pos (length b.counts) ≤ℤ n
    → floor_div_pow2 (last_index b) by -ℤ floor_div_pow2 b.offset by +ℤ pos 1 ≤ℤ n
contract_lem b by n e h =
    let full = is_empty-length b.counts e in
    let m = length b.counts - 1 in
    let p = last_index_parts b in
    let end : last_index b ≡ b.offset +ℤ pos m = omega int_laws in
    let c = floor_contract b.offset m by in rw end (omega int_laws)

pub rescale-Fits : (by : ℕ) (b : ExpBuckets) (n : ℤ) → Fits n b → Fits n (rescale by b)
rescale-Fits by b n f = elim (Bool-cases (is_empty b.counts)) [
  | inl e ↦ rw (rescale_empty by b e) f
  | inr e ↦
      let r = rescale-Rescaled by b e in
      let ends = f.range e in
      record {
        size = size_lem (rescale by b) n (rw (r.width, r.first) (contract_lem b by n e f.size));
        range = λ q.
            rw (r.width, r.first)
              (
                floor_div_pow2-IsInt32 b.offset by ends.0,
                floor_div_pow2-IsInt32 (last_index b) by ends.1,
              );
      }
]
