-- ===== src/Sdk/ExpHistogram/Storage/Counted.antt =====
-- src/sdk/metric_exp_histogram_storage.cpp: the observations against the counts of the points.
use microtel.Prelude.{
  ℕ, ◌+◌, ◌%◌, ◌^◌, ◌≡◌, refl, inl, inr, Bool, true, ◌&&◌, ◌==◌, if◌then◌else◌, List, [], ◌∷◌,
  Option, arith, Bool-cases,
}
use microtel.Prelude.Int.{ℤ}
use microtel.Sdk.Diagnostics.{Diagnostics}
use microtel.Sdk.SumStorage.{AggregationTemporality, is_delta}
use microtel.Sdk.ExpHistogram.{MathLibrary}
use microtel.Sdk.ExpHistogram.Storage.{
  Doubles, StoredPoint, ExponentialHistogramStorage, ExponentialHistogramPoint, Call, World, add64,
  empty_point, start_or_widen, distribute, observe, change_point, has_no_room, snapshot,
  collect_points, record_finite, record_value, call, calls,
}

module _ {K V : Type 0} where
  unfoldable pub live_count : List (K × StoredPoint V) → ℕ
  live_count [] = 0
  live_count (p ∷ ps) = p.1.count + live_count ps

module _ {K E V : Type 0} where
  unfoldable pub report_count : List (ExponentialHistogramPoint K E V) → ℕ
  report_count [] = 0
  report_count (p ∷ ps) = p.count + report_count ps

  unfoldable pub reported_count : List (List (ExponentialHistogramPoint K E V)) → ℕ
  reported_count [] = 0
  reported_count (r ∷ rs) = report_count r + reported_count rs

  -- Live and reported together.
  abbrev pub everything : World K E V → ℕ
  everything w = reported_count w.reported + live_count w.storage.points

  -- How many of the calls record a finite value.
  unfoldable pub finite_count : Doubles V → List (Call K E V) → ℕ
  finite_count d [] = 0
  finite_count d (Call.records v k e ∷ cs) = (if d.is_finite v then 1 else 0) + finite_count d cs
  finite_count d (Call.collects t ∷ cs) = finite_count d cs

  unfoldable pub all_delta : List (Call K E V) → Bool
  all_delta [] = true
  all_delta (Call.records v k e ∷ cs) = all_delta cs
  all_delta (Call.collects t ∷ cs) = is_delta t && all_delta cs

  abbrev pub new_storage : ℤ → ℤ → ℕ → Option Diagnostics → ExponentialHistogramStorage K E V
  new_storage max_scale max_buckets max_cardinality diag = record {
    points = [];
    exemplars = [];
    max_scale = max_scale;
    max_buckets = max_buckets;
    max_cardinality = max_cardinality;
    diag = diag;
  }

  abbrev pub new : ℤ → ℤ → ℕ → Option Diagnostics → World K E V
  new max_scale max_buckets max_cardinality diag = record {
    storage = new_storage max_scale max_buckets max_cardinality diag;
    reported = [];
  }

module _ {V : Type 0} (d : Doubles V) (math : MathLibrary V) where
  -- Both ways to count an observation count it once.
  count-observe :
      (s b : ℤ) (v : V) (p : StoredPoint V) → (observe d math s b v p).count ≡ add64 p.count 1
  unfolding observe start_or_widen distribute
  count-observe s b v p = elim (Bool-cases (d.is_zero v)) [
    | inl z ↦ elim (Bool-cases (p.count == 0)) [ inl c ↦ rw (z, c) refl | inr c ↦ rw (z, c) refl ]
    | inr z ↦ elim (Bool-cases (p.count == 0)) [ inl c ↦ rw (z, c) refl | inr c ↦ rw (z, c) refl ]
  ]

module _ {K V : Type 0} (key_eq : K → K → Bool) where
  live_count-change_point :
      (f : StoredPoint V → StoredPoint V) (fresh : StoredPoint V) (k : K)
      (ps : List (K × StoredPoint V))
      → ((p : StoredPoint V) → (f p).count ≡ add64 p.count 1)
      → fresh.count ≡ 0
      → live_count (change_point key_eq f fresh k ps) % 2 ^ 64 ≡ (live_count ps + 1) % 2 ^ 64
  unfolding live_count change_point
  live_count-change_point f fresh k [] h z = omega (arith, h fresh)
  live_count-change_point f fresh k (p ∷ ps) h z = elim (Bool-cases (key_eq p.0 k)) [
    | inl e ↦ rw e (omega (arith, h p.1))
    | inr e ↦ rw e (omega (arith, live_count-change_point f fresh k ps h z))
  ]

  report_count-snapshot :
      {E : Type 0} (ps : List (K × StoredPoint V)) (es : List (K × E))
      → report_count (snapshot key_eq ps es) ≡ live_count ps
  unfolding report_count snapshot live_count
  report_count-snapshot [] es = refl
  report_count-snapshot (p ∷ ps) es = omega (arith, report_count-snapshot ps es)

module _ {K E V : Type 0} (d : Doubles V) (math : MathLibrary V) (key_eq : K → K → Bool)
    (overflow : K) where
  live_count-record_value :
      (v : V) (k : K) (e : Option E) (s : ExponentialHistogramStorage K E V)
      → live_count (record_value d math key_eq overflow v k e s).points % 2 ^ 64
        ≡ (live_count s.points + (if d.is_finite v then 1 else 0)) % 2 ^ 64
  unfolding record_value record_finite
  live_count-record_value v k e s = elim (Bool-cases (d.is_finite v)) [
    | inr f ↦ rw f (omega arith)
    | inl f ↦
        let key = if has_no_room key_eq k s then overflow else k in
        rw f (
          live_count-change_point key_eq (observe d math s.max_scale s.max_buckets v)
            (empty_point d) key s.points (count-observe d math s.max_scale s.max_buckets v) refl)
  ]

  everything-collects :
      (t : AggregationTemporality) (w : World K E V)
      → is_delta t ≡ true
      → everything (call d math key_eq overflow (Call.collects t) w) ≡ everything w
  unfolding call collect_points reported_count live_count
  everything-collects t w h =
      let one = report_count-snapshot key_eq w.storage.points w.storage.exemplars in
      rw h (omega (arith, one))

  everything-calls :
      (cs : List (Call K E V)) (w : World K E V)
      → all_delta cs ≡ true
      → everything (calls d math key_eq overflow cs w) % 2 ^ 64
        ≡ (everything w + finite_count d cs) % 2 ^ 64
  unfolding calls call collect_points all_delta finite_count reported_count live_count
  everything-calls [] w h = omega arith
  everything-calls (Call.records v k e ∷ cs) w h =
      let one = live_count-record_value v k e w.storage in
      let rest = everything-calls cs (call d math key_eq overflow (Call.records v k e) w) h in
      omega (arith, one, rest)
  everything-calls (Call.collects t ∷ cs) w h =
      let one = everything-collects t w (ground arith) in
      let rest =
        everything-calls cs (call d math key_eq overflow (Call.collects t) w) (ground arith) in
      omega (arith, one, rest)

  -- For a reader that collects deltas: whatever attribute sets come, past the cardinality limit too,
  -- the counts it has got and those it will get add up to the number of finite values that were
  -- recorded, up to the wrap-around of the counters.
  pub calls-finite_count :
      (cs : List (Call K E V)) (max_scale max_buckets : ℤ) (max_cardinality : ℕ)
      (diag : Option Diagnostics)
      → all_delta cs ≡ true
      → everything
            (calls d math key_eq overflow cs (new max_scale max_buckets max_cardinality diag))
          % 2 ^ 64
        ≡ finite_count d cs % 2 ^ 64
  unfolding reported_count live_count
  calls-finite_count cs max_scale max_buckets max_cardinality diag h =
      omega (arith, everything-calls cs (new max_scale max_buckets max_cardinality diag) h)
