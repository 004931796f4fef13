-- ===== src/Sdk/SumStorage.antt =====
-- src/sdk/metric_sum_storage.cpp: a sum instrument of `int64_t` values. The attribute sets, equal as
-- their `operator==` says, are a type with a test; the points are an association list in the place of
-- the hash map, so the order of a collection says nothing. A sum that leaves `int64_t` is undefined
-- in the source and is exact here.
pub mod Conserve
pub mod Cardinality
mod Tests
use microtel.Prelude.{
  ℕ, zero, suc, ◌+◌, ◌≤◌, Bool, true, false, not, ◌&&◌, leb, if◌then◌else◌, List, [], ◌∷◌, ◌++◌,
  Option, none, some, length,
}
use microtel.Prelude.Int.{ℤ, pos, ◌+ℤ◌}
use microtel.Sdk.Diagnostics.{Diagnostics, DropReason, record_drop}

pub data AggregationTemporality : Type 0 where
  cumulative delta : AggregationTemporality

abbrev pub is_delta : AggregationTemporality → Bool
is_delta AggregationTemporality.delta = true
is_delta _ = false

-- `K` is the attribute sets, `E` the exemplars.
pub record SumStorage (K E : Type 0) : Type 0 where
  pub points : List (K × ℤ)
  pub exemplars : List (K × E)
  pub max_cardinality : ℕ
  pub diag : Option Diagnostics

pub record NumberPoint (K E : Type 0) : Type 0 where
  pub attributes : K
  pub value : ℤ
  pub exemplar : Option E

-- One call.
pub data Call (K E : Type 0) : Type 0 where
  adds : ℤ → K → Option E → Call K E
  collects : AggregationTemporality → Call K E

-- A storage, and what a reader has got so far.
pub record World (K E : Type 0) : Type 0 where
  pub storage : SumStorage K E
  pub reported : List (List (NumberPoint K E))

abbrev pub is_some : {V : Type 0} → Option V → Bool
is_some none = false
is_some (some v) = true

abbrev pub count_overflow : Option Diagnostics → Option Diagnostics
count_overflow none = none
count_overflow (some d) = some (record_drop DropReason.cardinality_overflow 1 d)

module _ {K : Type 0} (key_eq : K → K → Bool) where
  unfoldable pub find : {V : Type 0} → K → List (K × V) → Option V
  find k [] = none
  find k (p ∷ ps) = if key_eq p.0 k then some p.1 else find k ps

  -- `try_emplace` and `+=`: an entry that is missing starts at zero.
  unfoldable pub add_to : K → ℤ → List (K × ℤ) → List (K × ℤ)
  add_to k value [] = (k, pos 0 +ℤ value) ∷ []
  add_to k value (p ∷ ps) = if key_eq p.0 k then (p.0, p.1 +ℤ value) ∷ ps else p ∷ add_to k value ps

  -- `insert_or_assign`.
  unfoldable pub assign : {E : Type 0} → K → E → List (K × E) → List (K × E)
  assign k e [] = (k, e) ∷ []
  assign k e (p ∷ ps) = if key_eq p.0 k then (p.0, e) ∷ ps else p ∷ assign k e ps

  -- A set that is new and finds no room is counted under the overflow set.
  unfoldable pub needs_drop : {E : Type 0} → K → SumStorage K E → Bool
  needs_drop k s = not (is_some (find k s.points)) && leb s.max_cardinality (length s.points)

  abbrev pub keep_exemplar : {E : Type 0} → K → Option E → List (K × E) → List (K × E)
  keep_exemplar k none es = es
  keep_exemplar k (some e) es = assign k e es

  unfoldable pub report : {E : Type 0} → List (K × ℤ) → List (K × E) → List (NumberPoint K E)
  report [] es = []
  report (p ∷ ps) es =
      record { attributes = p.0; value = p.1; exemplar = find p.0 es } ∷ report ps es

  unfoldable pub collect :
      {E : Type 0}
      → AggregationTemporality
      → SumStorage K E
      → List (NumberPoint K E) × SumStorage K E
  collect temporality s = (
    report s.points s.exemplars,
    record s { exemplars = []; points = if is_delta temporality then [] else s.points },
  )

module _ {K E : Type 0} (key_eq : K → K → Bool) (overflow : K) where
  -- The exemplar is there when the calling thread is in a sampled span.
  unfoldable pub add : ℤ → K → Option E → SumStorage K E → SumStorage K E
  add value k exemplar s =
      let dropped = needs_drop key_eq k s in
      let key = if dropped then overflow else k in
      record s {
        points = add_to key_eq key value s.points;
        exemplars = keep_exemplar key_eq key exemplar s.exemplars;
        diag = if dropped then count_overflow s.diag else s.diag;
      }

  unfoldable pub call : Call K E → World K E → World K E
  call (adds v k e) w = record w { storage = add v k e w.storage }
  call (collects t) w =
      let r = collect key_eq t w.storage in record w { storage = r.1; reported = r.0 ∷ w.reported }

  unfoldable pub calls : List (Call K E) → World K E → World K E
  calls [] w = w
  calls (c ∷ cs) w = calls cs (call c w)
