-- ===== src/Sdk/ExpHistogram/Indexed.antt =====
-- A point against the values it took: at whatever scale it has come to, it holds every value in the
-- bucket that `MapIndex` gives at that scale.
use native.Mathlib.Nat.{zero-div}
use microtel.Prelude.{
  ℕ, zero, suc, ◌/◌, ◌^◌, ◌∙◌, ◌≡◌, refl, inl, inr, Bool, true, false, if◌then◌else◌, List, [], ◌∷◌,
  map, arith, Bool-cases,
}
use microtel.Prelude.Int.{ℤ, pos, negsuc, ◌-ℤ◌, ◌≤ℤ◌, int_laws}
use microtel.Sdk.ExpHistogram.{
  MathLibrary, map_index, ExpHistoPoint, floor_div_pow2, required_downscale, target_of, place_in,
  downscale, overflows, insert_index, insert_value, insert_all,
}
use microtel.Sdk.ExpHistogram.Floor.{floor_div, floor_div_pow2-floor_div}
use microtel.Sdk.ExpHistogram.Total.{total, count, Holds}
use microtel.Sdk.ExpHistogram.Rescale.{rescale-Holds}
use microtel.Sdk.ExpHistogram.Insert.{place-Holds}

-- The observed values of one sign.
unfoldable pub side : {V : Type 0} → Bool → List (V × Bool) → List V
side s [] = []
side true (o ∷ os) = if o.1 then o.0 ∷ side true os else side true os
side false (o ∷ os) = if o.1 then side false os else o.0 ∷ side false os

-- The least integer that is not below a quotient by a positive divisor.
abbrev pub ceil_div : ℤ → ℕ → ℤ
ceil_div (pos zero) d = pos 0
ceil_div (pos (suc n)) d = pos (suc (n / d))
ceil_div (negsuc n) d = pos 0 -ℤ pos (suc n / d)

floor_div-ceil_div : (c : ℤ) (k : ℕ) → floor_div_pow2 (c -ℤ pos 1) k ≡ ceil_div c (2 ^ k) -ℤ pos 1
unfolding floor_div
floor_div-ceil_div (pos zero) k =
    let e : pos 0 -ℤ pos 1 ≡ negsuc 0 = omega int_laws in
    rw (e, floor_div_pow2-floor_div (negsuc 0) k, zero-div (2 ^ k)) refl
floor_div-ceil_div (pos (suc n)) k =
    let e : pos (suc n) -ℤ pos 1 ≡ pos n = omega int_laws in
    rw (e, floor_div_pow2-floor_div (pos n) k) (omega int_laws)
floor_div-ceil_div (negsuc n) k =
    let e : negsuc n -ℤ pos 1 ≡ negsuc (suc n) = omega int_laws in
    rw (e, floor_div_pow2-floor_div (negsuc (suc n)) k) (omega int_laws)

module _ {V : Type 0} (math : MathLibrary V) (min_scale max_scale : ℤ) where
  -- The number that `MapIndex` takes 1 from.
  abbrev ceiling : V → ℤ → ℤ
  ceiling v scale = math.to_int32 (math.ceil (math.mul (math.log2 v) (math.ldexp_one scale)))

  -- What the library promises for a value between two scales at which nothing underflows or
  -- overflows: the product by a power of two and the ceiling are exact.
  abbrev pub ScalesExactly : V → Type 0
  ScalesExactly v =
      (s : ℤ) (k : ℕ)
      → min_scale ≤ℤ s -ℤ pos k
      → s ≤ℤ max_scale
      → ceiling v (s -ℤ pos k) ≡ ceil_div (ceiling v s) (2 ^ k)

  abbrev pub EachExact : List V → Type 0
  EachExact [] = Unit
  EachExact (v ∷ vs) = ScalesExactly v × EachExact vs

  pub record Indexed (p : ExpHistoPoint) (os : List (V × Bool)) : Type 0 where
    pub low : p.scale ≤ℤ max_scale
    pub positives : Holds p.positive (map (λ v. map_index math v p.scale) (side false os))
    pub negatives : Holds p.negative (map (λ v. map_index math v p.scale) (side true os))

  EachExact-side :
      (b : Bool) (os : List (V × Bool)) → EachExact (map (λ o. o.0) os) → EachExact (side b os)
  unfolding side
  EachExact-side b [] e = tt
  EachExact-side true ((v, true) ∷ os) e = (e.0, EachExact-side true os e.1)
  EachExact-side true ((v, false) ∷ os) e = EachExact-side true os e.1
  EachExact-side false ((v, true) ∷ os) e = EachExact-side false os e.1
  EachExact-side false ((v, false) ∷ os) e = (e.0, EachExact-side false os e.1)

  floor_div_pow2-map_index :
      (v : V) (s : ℤ) (k : ℕ)
      → ScalesExactly v
      → min_scale ≤ℤ s -ℤ pos k
      → s ≤ℤ max_scale
      → floor_div_pow2 (map_index math v s) k ≡ map_index math v (s -ℤ pos k)
  unfolding map_index
  floor_div_pow2-map_index v s k e l h = floor_div-ceil_div (ceiling v s) k ∙ rw (e s k l h) refl

  map-floor :
      (s : ℤ) (k : ℕ) (vs : List V)
      → EachExact vs
      → min_scale ≤ℤ s -ℤ pos k
      → s ≤ℤ max_scale
      → map (λ j. floor_div_pow2 j k) (map (λ v. map_index math v s) vs)
        ≡ map (λ v. map_index math v (s -ℤ pos k)) vs
  map-floor s k [] e l h = refl
  map-floor s k (v ∷ vs) e l h =
      rw (floor_div_pow2-map_index v s k e.0 l h, map-floor s k vs e.1 l h) refl

  downscale-Indexed :
      (k : ℕ) (p : ExpHistoPoint) (os : List (V × Bool))
      → EachExact (map (λ o. o.0) os)
      → min_scale ≤ℤ p.scale -ℤ pos k
      → Indexed p os
      → Indexed (downscale k p) os
  unfolding downscale
  downscale-Indexed k p os e l i = record {
    low = omega (int_laws, i.low);
    positives =
        rw (← map-floor p.scale k (side false os) (EachExact-side false os e) l i.low)
          (rescale-Holds k p.positive _ i.positives);
    negatives =
        rw (← map-floor p.scale k (side true os) (EachExact-side true os e) l i.low)
          (rescale-Holds k p.negative _ i.negatives);
  }

  place_in-Indexed :
      (p : ExpHistoPoint) (v : V) (s : Bool) (os : List (V × Bool))
      → Indexed p os
      → Indexed (place_in s (map_index math v p.scale) p) ((v, s) ∷ os)
  unfolding place_in side
  place_in-Indexed p v true os i = record {
    low = i.low;
    positives = i.positives;
    negatives = place-Holds p.negative (map_index math v p.scale) _ i.negatives;
  }
  place_in-Indexed p v false os i = record {
    low = i.low;
    positives = place-Holds p.positive (map_index math v p.scale) _ i.positives;
    negatives = i.negatives;
  }

  -- The scale after an insertion.
  insert_value_scale :
      (p : ExpHistoPoint) (v : V) (s : Bool) (n : ℤ)
      → let j = map_index math v p.scale in
        (insert_value math p v s n).scale ≡ (
          if overflows (target_of s p) j n
          then p.scale -ℤ pos (required_downscale (target_of s p) j n)
          else p.scale)
  unfolding insert_value insert_index downscale place_in
  insert_value_scale p v s n = ground arith

  scale-insert_value :
      (p : ExpHistoPoint) (v : V) (s : Bool) (n : ℤ) → (insert_value math p v s n).scale ≤ℤ p.scale
  scale-insert_value p v s n =
      let j = map_index math v p.scale in
      rw (insert_value_scale p v s n) (elim (Bool-cases (overflows (target_of s p) j n)) [
        | inl o ↦ rw o (omega int_laws)
        | inr o ↦ rw o (omega arith)
      ])

  insert_value-Indexed :
      (p : ExpHistoPoint) (v : V) (s : Bool) (n : ℤ) (os : List (V × Bool))
      → ScalesExactly v
      → EachExact (map (λ o. o.0) os)
      → min_scale ≤ℤ (insert_value math p v s n).scale
      → Indexed p os
      → Indexed (insert_value math p v s n) ((v, s) ∷ os)
  unfolding insert_value insert_index downscale
  insert_value-Indexed p v s n os exact each l i =
      let j = map_index math v p.scale in
      let change = required_downscale (target_of s p) j n in
      let l' = rw (insert_value_scale p v s n) at l in
      elim (Bool-cases (overflows (target_of s p) j n)) [
        | inl o ↦
            let down = rw o at l' in
            rw (o, floor_div_pow2-map_index v p.scale change exact down i.low)
              (place_in-Indexed (downscale change p) v s os
                (downscale-Indexed change p os each down i))
        | inr o ↦ rw o (place_in-Indexed p v s os i)
      ]

  -- For values whose logarithms the math library scales exactly from `max_scale` down to
  -- `min_scale`, after any observations that leave the point at a scale not below `min_scale`: the
  -- scale is at most the one the point began with, and the two bucket arrays hold exactly the values
  -- of their sign, each as often as it came (up to the wrap-around of the counters), in the bucket
  -- that `MapIndex` gives at the scale the point is at.
  pub insert_all-Indexed :
      (max_buckets : ℤ) (os : List (V × Bool))
      → EachExact (map (λ o. o.0) os)
      → min_scale ≤ℤ (insert_all math max_scale max_buckets os).scale
      → Indexed (insert_all math max_scale max_buckets os) os
  unfolding insert_all side total count
  insert_all-Indexed n [] e l = record {
    low = omega arith;
    positives = λ p. refl;
    negatives = λ p. refl;
  }
  insert_all-Indexed n (o ∷ os) e l =
      let before = insert_all math max_scale n os in
      insert_value-Indexed before o.0 o.1 n os e.0 e.1 l
        (insert_all-Indexed n os e.1 (omega (arith, scale-insert_value before o.0 o.1 n)))
