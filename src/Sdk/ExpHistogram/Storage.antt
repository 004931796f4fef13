-- ===== src/Sdk/ExpHistogram/Storage.antt =====
-- src/sdk/metric_exp_histogram_storage.cpp, `ExponentialHistogramStorage`: the points of an instrument.
-- A `double` is a type with the operations that the source uses of it; the attribute sets are a type
-- with a test, and the points an association list in the place of the hash map.
-- `RequiredDownscale` keeps its 30 turns, which are enough for a `max_buckets` of two or more.
pub mod Counted
pub mod Balanced
mod Tests
use microtel.Prelude.{
  ℕ, zero, suc, ◌+◌, ◌%◌, ◌^◌, Bool, true, false, ◌&&◌, ◌==◌, leb, not, if◌then◌else◌, List, [],
  ◌∷◌, Option, none, some, length,
}
use microtel.Prelude.Int.{ℤ, pos}
use microtel.Sdk.Diagnostics.{Diagnostics, DropReason, record_drop}
use microtel.Sdk.SumStorage.{
  AggregationTemporality, is_delta, is_some, find, keep_exemplar, count_overflow,
}
use microtel.Sdk.ExpHistogram.{MathLibrary, map_index, ExpBuckets, ExpHistoPoint, insert_value}

-- What is used of a `double`.
pub record Doubles (V : Type 0) : Type 0 where
  pub nought : V
  pub plus : V → V → V
  pub abs : V → V
  pub less : V → V → Bool
  pub is_zero : V → Bool
  pub is_finite : V → Bool

-- An `ExpHistoPoint` as a whole.
pub record StoredPoint (V : Type 0) : Type 0 where
  pub arrays : ExpHistoPoint
  pub zero_count : ℕ
  pub count : ℕ
  pub sum : V
  pub min : V
  pub max : V

pub record ExponentialHistogramStorage (K E V : Type 0) : Type 0 where
  pub points : List (K × StoredPoint V)
  pub exemplars : List (K × E)
  pub max_scale : ℤ
  pub max_buckets : ℤ
  pub max_cardinality : ℕ
  pub diag : Option Diagnostics

pub record ExponentialHistogramPoint (K E V : Type 0) : Type 0 where
  pub attributes : K
  pub count : ℕ
  pub sum : V
  pub min : V
  pub max : V
  pub scale : ℤ
  pub zero_count : ℕ
  pub positive : ExpBuckets
  pub negative : ExpBuckets
  pub exemplar : Option E

-- One call; `Record` with the exemplar that a sampled span gives.
pub data Call (K E V : Type 0) : Type 0 where
  records : V → K → Option E → Call K E V
  collects : AggregationTemporality → Call K E V

-- A storage, and what a reader has got so far, the newest first.
pub record World (K E V : Type 0) : Type 0 where
  pub storage : ExponentialHistogramStorage K E V
  pub reported : List (List (ExponentialHistogramPoint K E V))

abbrev pub add64 : ℕ → ℕ → ℕ
add64 a b = (a + b) % 2 ^ 64

abbrev count_non_finite : Option Diagnostics → Option Diagnostics
count_non_finite none = none
count_non_finite (some d) = some (record_drop DropReason.non_finite_value 1 d)

module _ {V : Type 0} (d : Doubles V) where
  -- A value-initialised `ExpHistoPoint`.
  abbrev pub empty_point : StoredPoint V
  empty_point = record {
    arrays = record {
      scale = pos 0;
      positive = record { offset = pos 0; counts = [] };
      negative = record { offset = pos 0; counts = [] };
    };
    zero_count = 0;
    count = 0;
    sum = d.nought;
    min = d.nought;
    max = d.nought;
  }

  -- `std::min` and `std::max`.
  abbrev pub lesser : V → V → V
  lesser a b = if d.less b a then b else a

  abbrev pub greater : V → V → V
  greater a b = if d.less a b then b else a

  -- The scale and the extremes before the observation is counted.
  unfoldable pub start_or_widen : ℤ → V → StoredPoint V → StoredPoint V
  start_or_widen max_scale observation p =
      if p.count == 0
      then record p {
        arrays = record p.arrays { scale = max_scale };
        min = observation;
        max = observation;
      }
      else record p { min = lesser p.min observation; max = greater p.max observation }

module _ {V : Type 0} (d : Doubles V) (math : MathLibrary V) where
  -- The zero count or a bucket.
  unfoldable pub distribute : ℤ → V → StoredPoint V → StoredPoint V
  distribute max_buckets observation p =
      if d.is_zero observation then record p { zero_count = add64 p.zero_count 1 } else record p {
        arrays =
            insert_value math p.arrays (d.abs observation) (d.less observation d.nought)
              max_buckets;
      }

  unfoldable pub observe : ℤ → ℤ → V → StoredPoint V → StoredPoint V
  observe max_scale max_buckets observation p =
      let started = start_or_widen d max_scale observation p in
      distribute max_buckets observation
        (record started { count = add64 started.count 1; sum = d.plus started.sum observation })

module _ {K V : Type 0} (key_eq : K → K → Bool) where
  -- `find` or `try_emplace`, and the change of the point.
  unfoldable pub change_point :
      (StoredPoint V → StoredPoint V)
      → StoredPoint V
      → K
      → List (K × StoredPoint V)
      → List (K × StoredPoint V)
  change_point f fresh k [] = (k, f fresh) ∷ []
  change_point f fresh k (p ∷ ps) =
      if key_eq p.0 k then (p.0, f p.1) ∷ ps else p ∷ change_point f fresh k ps

  unfoldable pub has_no_room : {E : Type 0} → K → ExponentialHistogramStorage K E V → Bool
  has_no_room k s =
      not (is_some (find key_eq k s.points)) && leb s.max_cardinality (length s.points)

  unfoldable pub snapshot :
      {E : Type 0}
      → List (K × StoredPoint V)
      → List (K × E)
      → List (ExponentialHistogramPoint K E V)
  snapshot [] es = []
  snapshot (p ∷ ps) es =
      record {
        attributes = p.0;
        count = p.1.count;
        sum = p.1.sum;
        min = p.1.min;
        max = p.1.max;
        scale = p.1.arrays.scale;
        zero_count = p.1.zero_count;
        positive = p.1.arrays.positive;
        negative = p.1.arrays.negative;
        exemplar = find key_eq p.0 es;
      }
      ∷ snapshot ps es

  unfoldable pub collect_points :
      {E : Type 0}
      → AggregationTemporality
      → ExponentialHistogramStorage K E V
      → List (ExponentialHistogramPoint K E V) × ExponentialHistogramStorage K E V
  collect_points temporality s = (
    snapshot s.points s.exemplars,
    record s { exemplars = []; points = if is_delta temporality then [] else s.points },
  )

module _ {K E V : Type 0} (d : Doubles V) (math : MathLibrary V) (key_eq : K → K → Bool)
    (overflow : K) where
  unfoldable pub record_finite :
      V → K → Option E → ExponentialHistogramStorage K E V → ExponentialHistogramStorage K E V
  record_finite observation k exemplar s =
      let dropped = has_no_room key_eq k s in
      let key = if dropped then overflow else k in
      record s {
        points =
            change_point key_eq (observe d math s.max_scale s.max_buckets observation)
              (empty_point d) key s.points;
        exemplars =
            if d.is_zero observation
            then s.exemplars
            else keep_exemplar key_eq key exemplar s.exemplars;
        diag = if dropped then count_overflow s.diag else s.diag;
      }

  -- `Record`.
  unfoldable pub record_value :
      V → K → Option E → ExponentialHistogramStorage K E V → ExponentialHistogramStorage K E V
  record_value observation k exemplar s =
      if not (d.is_finite observation)
      then record s { diag = count_non_finite s.diag }
      else record_finite observation k exemplar s

  unfoldable pub call : Call K E V → World K E V → World K E V
  call (records v k e) w = record w { storage = record_value v k e w.storage }
  call (collects t) w =
      let r = collect_points key_eq t w.storage in
      record w { storage = r.1; reported = r.0 ∷ w.reported }

  unfoldable pub calls : List (Call K E V) → World K E V → World K E V
  calls [] w = w
  calls (c ∷ cs) w = calls cs (call c w)
