-- ===== src/Sdk/ExpHistogram/Storage/Balanced.antt =====
-- src/sdk/metric_exp_histogram_storage.cpp: the count of a point against its buckets.
use microtel.Prelude.{
  ℕ, ◌+◌, ◌%◌, ◌^◌, ◌≡◌, refl, sym, ap, ◌∙◌, inl, inr, Bool, true, false, ◌==◌, if◌then◌else◌, List,
  [], ◌∷◌, Option, map, length, length-map, arith, Bool-cases,
}
use microtel.Prelude.Int.{ℤ, pos, ◌+ℤ◌}
use microtel.Sdk.Diagnostics.{Diagnostics}
use microtel.Sdk.SumStorage.{is_delta}
use microtel.Sdk.ExpHistogram.{
  MathLibrary, map_index, ExpBuckets, ExpHistoPoint, floor_div_pow2, required_downscale, target_of,
  place_in, downscale, overflows, insert_index, insert_value,
}
use microtel.Sdk.ExpHistogram.Total.{total, count, Holds}
use microtel.Sdk.ExpHistogram.Rescale.{rescale-Holds}
use microtel.Sdk.ExpHistogram.Insert.{place-Holds}
use microtel.Sdk.ExpHistogram.Storage.{
  Doubles, StoredPoint, ExponentialHistogramStorage, ExponentialHistogramPoint, Call, World,
  empty_point, start_or_widen, distribute, observe, change_point, has_no_room, snapshot,
  collect_points, record_finite, record_value, call, calls,
}
use microtel.Sdk.ExpHistogram.Storage.Counted.{new}

unfoldable pub bucket_sum : List ℕ → ℕ
bucket_sum [] = 0
bucket_sum (c ∷ cs) = c + bucket_sum cs

-- The zero count and the buckets of both signs, as the counters wrap around, are the count.
abbrev pub AddsUp : {K E V : Type 0} → ExponentialHistogramPoint K E V → Type 0
AddsUp p =
    (p.zero_count + bucket_sum p.positive.counts + bucket_sum p.negative.counts) % 2 ^ 64 ≡ p.count

abbrev pub AllAddUp : {K E V : Type 0} → List (ExponentialHistogramPoint K E V) → Type 0
AllAddUp [] = Unit
AllAddUp (p ∷ ps) = AddsUp p × AllAddUp ps

abbrev pub EachAddsUp : {K E V : Type 0} → List (List (ExponentialHistogramPoint K E V)) → Type 0
EachAddsUp [] = Unit
EachAddsUp (r ∷ rs) = AllAddUp r × EachAddsUp rs

total-bucket_sum : (i : ℤ) (cs : List ℕ) → total (λ _. true) i cs ≡ bucket_sum cs
unfolding total bucket_sum
total-bucket_sum i [] = refl
total-bucket_sum i (c ∷ cs) = omega (arith, total-bucket_sum (i +ℤ pos 1) cs)

count-length : (xs : List ℤ) → count (λ _. true) xs ≡ length xs
unfolding count
count-length [] = refl
count-length (x ∷ xs) = omega (arith, count-length xs)

Holds-bucket_sum :
    (b : ExpBuckets) (xs : List ℤ) → Holds b xs → bucket_sum b.counts % 2 ^ 64 ≡ length xs % 2 ^ 64
Holds-bucket_sum b xs h =
    ap (λ (n : ℕ). n % 2 ^ 64) (sym (total-bucket_sum b.offset b.counts))
    ∙ h (λ _. true)
    ∙ ap (λ (n : ℕ). n % 2 ^ 64) (count-length xs)

-- The arrays hold so many recorded indices.
record Stored (arrays : ExpHistoPoint) (n : ℕ) : Type 0 where
  ups : List ℤ
  downs : List ℤ
  positives : Holds arrays.positive ups
  negatives : Holds arrays.negative downs
  size : length ups + length downs ≡ n

downscale-Stored :
    (k : ℕ) (arrays : ExpHistoPoint) (n : ℕ) → Stored arrays n → Stored (downscale k arrays) n
unfolding downscale
downscale-Stored k arrays n s =
    let floor : ℤ → ℤ = λ j. floor_div_pow2 j k in
    record {
      ups = map floor s.ups;
      downs = map floor s.downs;
      positives = rescale-Holds k arrays.positive s.ups s.positives;
      negatives = rescale-Holds k arrays.negative s.downs s.negatives;
      size = omega (arith, length-map s.ups floor, length-map s.downs floor, s.size);
    }

place_in-Stored :
    (is_negative : Bool) (index : ℤ) (arrays : ExpHistoPoint) (n : ℕ)
    → Stored arrays n
    → Stored (place_in is_negative index arrays) (n + 1)
unfolding place_in
place_in-Stored true index arrays n s = record {
  ups = s.ups;
  downs = index ∷ s.downs;
  positives = s.positives;
  negatives = place-Holds arrays.negative index s.downs s.negatives;
  size = omega (arith, s.size);
}
place_in-Stored false index arrays n s = record {
  ups = index ∷ s.ups;
  downs = s.downs;
  positives = place-Holds arrays.positive index s.ups s.positives;
  negatives = s.negatives;
  size = omega (arith, s.size);
}

insert_index-Stored :
    (arrays : ExpHistoPoint) (index : ℤ) (is_negative : Bool) (max_buckets : ℤ) (n : ℕ)
    → Stored arrays n
    → Stored (insert_index arrays index is_negative max_buckets) (n + 1)
unfolding insert_index
insert_index-Stored arrays index is_negative max_buckets n s =
    let target = target_of is_negative arrays in
    let change = required_downscale target index max_buckets in
    elim (Bool-cases (overflows target index max_buckets)) [
      | inl o ↦ rw o (
          place_in-Stored is_negative (floor_div_pow2 index change) (downscale change arrays) n
            (downscale-Stored change arrays n s))
      | inr o ↦ rw o (place_in-Stored is_negative index arrays n s)
    ]

record IsBalanced {V : Type 0} (p : StoredPoint V) : Type 0 where
  inserted : ℕ
  stored : Stored p.arrays inserted
  sums : (p.zero_count + inserted) % 2 ^ 64 ≡ p.count

module _ {V : Type 0} (d : Doubles V) (math : MathLibrary V) where
  empty_point-IsBalanced : IsBalanced (empty_point d)
  empty_point-IsBalanced = record {
    inserted = 0;
    stored = record {
      ups = [];
      downs = [];
      positives = λ p. unfold total count in refl;
      negatives = λ p. unfold total count in refl;
      size = refl;
    };
    sums = refl;
  }

  start_or_widen-IsBalanced :
      (s : ℤ) (v : V) (p : StoredPoint V) → IsBalanced p → IsBalanced (start_or_widen d s v p)
  unfolding start_or_widen
  start_or_widen-IsBalanced s v p h = elim (Bool-cases (p.count == 0)) [
    | inl c ↦ rw c (record {
      inserted = h.inserted;
      stored = record {
        ups = h.stored.ups;
        downs = h.stored.downs;
        positives = h.stored.positives;
        negatives = h.stored.negatives;
        size = h.stored.size;
      };
      sums = h.sums;
    })
    | inr c ↦ rw c (record { inserted = h.inserted; stored = h.stored; sums = h.sums })
  ]

  observe-IsBalanced :
      (s b : ℤ) (v : V) (p : StoredPoint V) → IsBalanced p → IsBalanced (observe d math s b v p)
  unfolding observe distribute insert_value
  observe-IsBalanced s b v p h =
      let started = start_or_widen d s v p in
      let k = start_or_widen-IsBalanced s v p h in
      elim (Bool-cases (d.is_zero v)) [
        | inl z ↦
            rw z (record { inserted = k.inserted; stored = k.stored; sums = omega (arith, k.sums) })
        | inr z ↦ rw z (record {
          inserted = k.inserted + 1;
          stored =
              insert_index-Stored started.arrays (map_index math (d.abs v) started.arrays.scale)
                (d.less v d.nought) b k.inserted k.stored;
          sums = omega (arith, k.sums);
        })
      ]

module _ {K V : Type 0} (key_eq : K → K → Bool) where
  abbrev AllBalanced : List (K × StoredPoint V) → Type 0
  AllBalanced [] = Unit
  AllBalanced (p ∷ ps) = IsBalanced p.1 × AllBalanced ps

  change_point-AllBalanced :
      (f : StoredPoint V → StoredPoint V) (fresh : StoredPoint V) (k : K)
      (ps : List (K × StoredPoint V))
      → ((p : StoredPoint V) → IsBalanced p → IsBalanced (f p))
      → IsBalanced fresh
      → AllBalanced ps
      → AllBalanced (change_point key_eq f fresh k ps)
  unfolding change_point
  change_point-AllBalanced f fresh k [] h z a = (h fresh z, tt)
  change_point-AllBalanced f fresh k (p ∷ ps) h z a = elim (Bool-cases (key_eq p.0 k)) [
    | inl e ↦ rw e (h p.1 a.0, a.1)
    | inr e ↦ rw e (a.0, change_point-AllBalanced f fresh k ps h z a.1)
  ]

  snapshot-AllAddUp :
      {E : Type 0} (ps : List (K × StoredPoint V)) (es : List (K × E))
      → AllBalanced ps
      → AllAddUp (snapshot key_eq ps es)
  unfolding snapshot
  snapshot-AllAddUp [] es a = tt
  snapshot-AllAddUp (p ∷ ps) es a =
      let s = a.0.stored in
      (
        omega (
          arith,
          Holds-bucket_sum p.1.arrays.positive s.ups s.positives,
          Holds-bucket_sum p.1.arrays.negative s.downs s.negatives,
          s.size,
          a.0.sums,
        ),
        snapshot-AllAddUp ps es a.1,
      )

module _ {K E V : Type 0} (d : Doubles V) (math : MathLibrary V) (key_eq : K → K → Bool)
    (overflow : K) where
  record_value-AllBalanced :
      (v : V) (k : K) (e : Option E) (s : ExponentialHistogramStorage K E V)
      → AllBalanced key_eq s.points
      → AllBalanced key_eq (record_value d math key_eq overflow v k e s).points
  unfolding record_value record_finite
  record_value-AllBalanced v k e s a = elim (Bool-cases (d.is_finite v)) [
    | inr f ↦ rw f a
    | inl f ↦
        let key = if has_no_room key_eq k s then overflow else k in
        rw f (
          change_point-AllBalanced key_eq (observe d math s.max_scale s.max_buckets v)
            (empty_point d) key s.points (observe-IsBalanced d math s.max_scale s.max_buckets v)
            (empty_point-IsBalanced d math) a)
  ]

  -- What is kept in a storage and was reported from it.
  abbrev IsBalancedWorld : World K E V → Type 0
  IsBalancedWorld w = AllBalanced key_eq w.storage.points × EachAddsUp w.reported

  call-IsBalancedWorld :
      (c : Call K E V) (w : World K E V)
      → IsBalancedWorld w
      → IsBalancedWorld (call d math key_eq overflow c w)
  unfolding call collect_points
  call-IsBalancedWorld (Call.records v k e) w h =
      (record_value-AllBalanced v k e w.storage h.0, h.1)
  call-IsBalancedWorld (Call.collects t) w h =
      let one = snapshot-AllAddUp key_eq w.storage.points w.storage.exemplars h.0 in
      elim (Bool-cases (is_delta t)) [
        | inl e ↦ rw e (tt, (one, h.1))
        | inr e ↦ rw e (h.0, (one, h.1))
      ]

  calls-IsBalancedWorld :
      (cs : List (Call K E V)) (w : World K E V)
      → IsBalancedWorld w
      → IsBalancedWorld (calls d math key_eq overflow cs w)
  unfolding calls
  calls-IsBalancedWorld [] w h = h
  calls-IsBalancedWorld (c ∷ cs) w h =
      calls-IsBalancedWorld cs (call d math key_eq overflow c w) (call-IsBalancedWorld c w h)

  -- Whatever is recorded, at whatever scales, and collected, as deltas or not: the count of every
  -- point that a reader gets is its zero count and its buckets together, up to the wrap-around of the
  -- counters.
  pub calls-EachAddsUp :
      (cs : List (Call K E V)) (max_scale max_buckets : ℤ) (max_cardinality : ℕ)
      (diag : Option Diagnostics)
      → EachAddsUp
          (calls d math key_eq overflow cs
            (new max_scale max_buckets max_cardinality diag)).reported
  calls-EachAddsUp cs max_scale max_buckets max_cardinality diag =
      (calls-IsBalancedWorld cs (new max_scale max_buckets max_cardinality diag) (tt, tt)).1
