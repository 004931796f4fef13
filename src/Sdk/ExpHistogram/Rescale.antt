-- ===== src/Sdk/ExpHistogram/Rescale.antt =====
-- `Rescale` moves every count to the bucket of the divided index.
use microtel.Prelude.{
  ℕ, zero, ◌+◌, ◌%◌, ◌^◌, ◌≤◌, ◌<◌, ◌≡◌, refl, sym, ap, ◌∙◌, inl, inr, Bool, true, false, ◌==◌,
  if◌then◌else◌, List, [], ◌∷◌, length, replicate, map, arith, Bool-cases, length-replicate,
}
use microtel.Prelude.Int.{ℤ, pos, pos_part, neg_part, ◌+ℤ◌, ◌-ℤ◌, ◌≤ℤ◌, int_laws}
use microtel.Sdk.ExpHistogram.{
  ExpBuckets, floor_div_pow2, last_index, add_at, merge_from, is_empty, rescale,
}
use microtel.Sdk.ExpHistogram.Floor.{floor_div_pow2_mono}
use microtel.Sdk.ExpHistogram.Total.{
  total, count, Holds, total-replicate, length-add_at, total-add_at,
}

-- The position of a divided index, and back.
pub slot_lem : (a b : ℤ) → a ≤ℤ b → a +ℤ pos (pos_part (b -ℤ a)) ≡ b
unfolding ◌+ℤ◌ ◌-ℤ◌
slot_lem a b h = ground arith

pub slot-lt : (a b : ℤ) (n : ℕ) → a ≤ℤ b → b +ℤ pos 1 ≤ℤ a +ℤ pos n → pos_part (b -ℤ a) < n
unfolding ◌+ℤ◌ ◌-ℤ◌
slot-lt a b n h k = ground arith

-- One turn of the loop.
merged : ℕ → ℤ → ℤ → ℕ → List ℕ → List ℕ
merged by new_offset abs c ms =
    if c == 0 then ms else add_at (pos_part (floor_div_pow2 abs by -ℤ new_offset)) c ms

length-merged :
    (by : ℕ) (o abs : ℤ) (c : ℕ) (ms : List ℕ) → length (merged by o abs c ms) ≡ length ms
unfolding merged
length-merged by o abs c ms =
    ground (arith, length-add_at (pos_part (floor_div_pow2 abs by -ℤ o)) c ms)

total-merged :
    (p : ℤ → Bool) (by : ℕ) (o abs : ℤ) (c : ℕ) (ms : List ℕ)
    → o ≤ℤ floor_div_pow2 abs by
    → floor_div_pow2 abs by +ℤ pos 1 ≤ℤ o +ℤ pos (length ms)
    → total p o (merged by o abs c ms) % 2 ^ 64
      ≡ (total p o ms + (if p (floor_div_pow2 abs by) then c else 0)) % 2 ^ 64
unfolding merged
total-merged p by o abs c ms lo room =
    let f = floor_div_pow2 abs by in
    let t = total-add_at p o (pos_part (f -ℤ o)) c ms (slot-lt o f (length ms) lo room) in
    let t' = rw (slot_lem o f lo) at t in ground arith

module _ (by : ℕ) (new_offset : ℤ) (p : ℤ → Bool) where
  total-merge_from :
      (abs last : ℤ) (cs ms : List ℕ)
      → new_offset ≤ℤ floor_div_pow2 abs by
      → abs +ℤ pos (length cs) ≤ℤ last +ℤ pos 1
      → floor_div_pow2 last by +ℤ pos 1 ≤ℤ new_offset +ℤ pos (length ms)
      → total p new_offset (merge_from by new_offset abs cs ms) % 2 ^ 64
        ≡ (total p new_offset ms + total (λ j. p (floor_div_pow2 j by)) abs cs) % 2 ^ 64
  unfolding merge_from total merged
  total-merge_from abs last [] ms lo hi room = ap (λ (n : ℕ). n % 2 ^ 64) (omega arith)
  total-merge_from abs last (c ∷ cs) ms lo hi room =
      let up = floor_div_pow2_mono abs (abs +ℤ pos 1) by (omega int_laws) in
      let below = floor_div_pow2_mono abs last by (omega int_laws) in
      let room' : floor_div_pow2 abs by +ℤ pos 1 ≤ℤ new_offset +ℤ pos (length ms) =
        omega int_laws in
      let n = length-merged by new_offset abs c ms in
      let step = total-merged p by new_offset abs c ms lo room' in
      let rest =
        total-merge_from (abs +ℤ pos 1) last cs (merged by new_offset abs c ms) (omega int_laws)
          (omega int_laws) (rw n room) in
      omega (arith, step, rest)

pub count-map :
    (p : ℤ → Bool) (f : ℤ → ℤ) (xs : List ℤ) → count p (map f xs) ≡ count (λ j. p (f j)) xs
unfolding count
count-map p f [] = refl
count-map p f (x ∷ xs) = rw (count-map p f xs) refl

pub last_index_parts :
    (b : ExpBuckets)
    → pos_part (last_index b) + 1 + neg_part b.offset
      ≡ neg_part (last_index b) + pos_part b.offset + length b.counts
unfolding last_index
last_index_parts b = omega int_laws

pub is_empty-length : (cs : List ℕ) → is_empty cs ≡ false → 1 ≤ length cs
unfolding is_empty
is_empty-length [] h = cc
is_empty-length (c ∷ cs) h = omega arith

span_room : (lo hi : ℤ) → lo ≤ℤ hi → hi +ℤ pos 1 ≤ℤ lo +ℤ pos (pos_part (hi -ℤ lo +ℤ pos 1))
unfolding ◌+ℤ◌ ◌-ℤ◌
span_room lo hi h = ground arith

span_last : (lo hi : ℤ) → lo ≤ℤ hi → lo +ℤ pos (pos_part (hi -ℤ lo +ℤ pos 1)) -ℤ pos 1 ≡ hi
unfolding ◌+ℤ◌ ◌-ℤ◌
span_last lo hi h = ground arith

span_full : (lo hi : ℤ) → lo ≤ℤ hi → 1 ≤ pos_part (hi -ℤ lo +ℤ pos 1)
span_full lo hi h = omega int_laws

pub offset-le-last_index : (b : ExpBuckets) → is_empty b.counts ≡ false → b.offset ≤ℤ last_index b
offset-le-last_index b h = omega (int_laws, last_index_parts b, is_empty-length b.counts h)

pub total_nil : (p : ℤ → Bool) (i : ℤ) (cs : List ℕ) → is_empty cs ≡ true → total p i cs ≡ 0
unfolding is_empty total
total_nil p i [] h = refl
total_nil p i (c ∷ cs) h = cc

total-rescale :
    (p : ℤ → Bool) (by : ℕ) (b : ExpBuckets)
    → total p (rescale by b).offset (rescale by b).counts % 2 ^ 64
      ≡ total (λ j. p (floor_div_pow2 j by)) b.offset b.counts % 2 ^ 64
unfolding rescale
total-rescale p by b = elim (Bool-cases (is_empty b.counts)) [
  | inl e ↦ rw e (
      ap (λ (n : ℕ). n % 2 ^ 64)
        (total_nil p b.offset b.counts e
          ∙ sym (total_nil (λ j. p (floor_div_pow2 j by)) b.offset b.counts e)))
  | inr e ↦
      let f = floor_div_pow2 in
      let lo = f b.offset by in
      let hi = f (last_index b) by in
      let n = pos_part (hi -ℤ lo +ℤ pos 1) in
      let o = offset-le-last_index b e in
      let z = total-replicate p lo n in
      let m =
        total-merge_from by lo p b.offset (last_index b) b.counts (replicate n 0) (omega arith)
          (omega (int_laws, last_index_parts b))
          (rw (length-replicate n (zero))
            (span_room lo hi (floor_div_pow2_mono b.offset (last_index b) by o))) in
      rw e (omega (arith, m, z))
]

-- Downscaled buckets hold the divided indices.
pub rescale-Holds :
    (by : ℕ) (b : ExpBuckets) (xs : List ℤ)
    → Holds b xs
    → Holds (rescale by b) (map (λ j. floor_div_pow2 j by) xs)
rescale-Holds by b xs h = λ p.
    total-rescale p by b
    ∙ h (λ j. p (floor_div_pow2 j by))
    ∙ ap (λ (n : ℕ). n % 2 ^ 64) (sym (count-map p (λ j. floor_div_pow2 j by) xs))

length-merge_from :
    (by : ℕ) (o abs : ℤ) (cs ms : List ℕ) → length (merge_from by o abs cs ms) ≡ length ms
unfolding merge_from merged
length-merge_from by o abs [] ms = refl
length-merge_from by o abs (c ∷ cs) ms =
    length-merge_from by o (abs +ℤ pos 1) cs (merged by o abs c ms) ∙ length-merged by o abs c ms

-- The rescaled array reaches from the divided first index to the divided last one.
pub record Rescaled (by : ℕ) (b r : ExpBuckets) : Type 0 where
  pub first : r.offset ≡ floor_div_pow2 b.offset by
  pub width : last_index r ≡ floor_div_pow2 (last_index b) by
  pub full : 1 ≤ length r.counts

pub rescale-Rescaled :
    (by : ℕ) (b : ExpBuckets) → is_empty b.counts ≡ false → Rescaled by b (rescale by b)
unfolding rescale last_index
rescale-Rescaled by b e =
    let lo = floor_div_pow2 b.offset by in
    let hi = floor_div_pow2 (last_index b) by in
    let n = pos_part (hi -ℤ lo +ℤ pos 1) in
    let le = floor_div_pow2_mono b.offset (last_index b) by (offset-le-last_index b e) in
    let long : length (merge_from by lo b.offset b.counts (replicate n 0)) ≡ n =
      length-merge_from by lo b.offset b.counts (replicate n 0) ∙ length-replicate n zero in
    rw e (record {
      first = refl;
      width = rw long (span_last lo hi le);
      full = rw long (span_full lo hi le);
    })
