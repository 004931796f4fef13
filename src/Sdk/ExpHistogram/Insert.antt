-- ===== src/Sdk/ExpHistogram/Insert.antt =====
-- `Place` and `InsertValue` against the list of the recorded indices.
use microtel.Prelude.{
  ℕ, zero, ◌+◌, ◌-◌, ◌≤◌, ◌≡◌, refl, ap, ◌∙◌, inl, inr, Bool, true, false, List, ◌∷◌, ◌++◌, length,
  replicate, arith, Bool-cases, length-replicate, length-append,
}
use microtel.Prelude.Int.{ℤ, pos, pos_part, ◌+ℤ◌, ◌-ℤ◌, ◌≤ℤ◌, ltb_ℤ, int_laws}
use microtel.Sdk.ExpHistogram.{ExpBuckets, last_index, is_empty, grow, place}
use microtel.Sdk.ExpHistogram.Total.{
  total, count, Holds, total-append, total-replicate, total-add_at,
}
use microtel.Sdk.ExpHistogram.Rescale.{
  is_empty-length, last_index_parts, total_nil, slot_lem, slot-lt,
}

-- The grown array holds what the array held, and reaches from the lower of the two ends to the
-- higher.
record Grown (b : ExpBuckets) (index : ℤ) (g : ExpBuckets) : Type 0 where
  same : (p : ℤ → Bool) → total p g.offset g.counts ≡ total p b.offset b.counts
  below : g.offset ≤ℤ index
  above : index +ℤ pos 1 ≤ℤ g.offset +ℤ pos (length g.counts)

room : (o i : ℤ) (n : ℕ) → o ≤ℤ i → i +ℤ pos 1 ≤ℤ o +ℤ pos (n + (pos_part (i -ℤ o +ℤ pos 1) - n))
room o i n h = omega int_laws

front-Grown :
    (b : ExpBuckets) (index : ℤ)
    → ltb_ℤ index b.offset ≡ true
    → 1 ≤ length b.counts
    → Grown b index
        (record { offset = index; counts = replicate (pos_part (b.offset -ℤ index)) 0 ++ b.counts })
front-Grown b index l full =
    let n = pos_part (b.offset -ℤ index) in
    let le : index ≤ℤ b.offset = ground arith in
    let long =
      length-append (replicate n zero) b.counts
      ∙ ap (λ (m : ℕ). m + length b.counts) (length-replicate n zero) in
    record {
      same = λ p.
          let t = total-append p index (replicate n zero) b.counts in
          let z = total-replicate p index n in
          let t' = rw (length-replicate n zero, slot_lem index b.offset le) at t in omega arith;
      below = omega arith;
      above = rw long (omega int_laws);
    }

back-Grown :
    (b : ExpBuckets) (index : ℤ)
    → ltb_ℤ index b.offset ≡ false
    → Grown b index (record b {
      counts = b.counts ++ replicate (pos_part (index -ℤ b.offset +ℤ pos 1) - length b.counts) 0;
    })
back-Grown b index l =
    let n = pos_part (index -ℤ b.offset +ℤ pos 1) - length b.counts in
    let le : b.offset ≤ℤ index = ground arith in
    let long =
      length-append b.counts (replicate n zero)
      ∙ ap (λ (m : ℕ). length b.counts + m) (length-replicate n zero) in
    record {
      same = λ p.
          let t = total-append p b.offset b.counts (replicate n zero) in
          let z = total-replicate p (b.offset +ℤ pos (length b.counts)) n in omega arith;
      below = le;
      above = rw long (room b.offset index (length b.counts) le);
    }

grow-Grown : (b : ExpBuckets) (index : ℤ) → Grown b index (grow b index)
unfolding grow
grow-Grown b index = elim (Bool-cases (is_empty b.counts)) [
  | inl e ↦ rw e (record {
    same = λ p. unfold total in ground (arith, total_nil p b.offset b.counts e);
    below = omega arith;
    above = omega int_laws;
  })
  | inr e ↦ elim (Bool-cases (ltb_ℤ index b.offset)) [
    | inl l ↦ rw (e, l) (front-Grown b index l (is_empty-length b.counts e))
    | inr l ↦ elim (Bool-cases (ltb_ℤ (last_index b) index)) [
      | inl h ↦ rw (e, l, h) (back-Grown b index l)
      | inr h ↦
          rw (e, l, h)
            (record {
              same = λ p. refl;
              below = ground arith;
              above =
                  let k : index ≤ℤ last_index b = ground arith in
                  omega (int_laws, last_index_parts b);
            })
    ]
  ]
]

pub place-Holds :
    (b : ExpBuckets) (index : ℤ) (xs : List ℤ) → Holds b xs → Holds (place b index) (index ∷ xs)
unfolding place count
place-Holds b index xs h = λ p.
    let g = grow-Grown b index in
    let slot = slot-lt (grow b index).offset index (length (grow b index).counts) g.below g.above in
    let t =
      total-add_at p (grow b index).offset (pos_part (index -ℤ (grow b index).offset)) 1
        (grow b index).counts slot in
    let t' = rw (slot_lem (grow b index).offset index g.below) at t in
    let s = g.same p in let k = h p in omega arith
