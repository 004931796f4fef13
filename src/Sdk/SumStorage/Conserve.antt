-- ===== src/Sdk/SumStorage/Conserve.antt =====
-- No value is lost, whatever attribute sets come.
use microtel.Prelude.{
  ℕ, ◌+◌, ◌≡◌, inl, inr, Bool, true, false, not, ◌&&◌, if◌then◌else◌, List, [], ◌∷◌, Option, arith,
  Bool-cases,
}
use microtel.Prelude.Int.{ℤ, pos, pos_part, neg_part, ◌+ℤ◌, int_laws, eq_of_parts}
use microtel.Sdk.Diagnostics.{Diagnostics}
use microtel.Sdk.SumStorage.{
  NumberPoint, Call, World, AggregationTemporality, is_delta, add_to, needs_drop, report, collect,
  add, call, calls,
}

-- Equal integers, by their parts.
abbrev Same : ℤ → ℤ → Type 0
Same a b = pos_part a + neg_part b ≡ pos_part b + neg_part a

module _ {K : Type 0} where
  unfoldable pub sum_points : List (K × ℤ) → ℤ
  sum_points [] = pos 0
  sum_points (p ∷ ps) = p.1 +ℤ sum_points ps

module _ {K E : Type 0} where
  unfoldable pub sum_report : List (NumberPoint K E) → ℤ
  sum_report [] = pos 0
  sum_report (p ∷ ps) = p.value +ℤ sum_report ps

  unfoldable pub sum_reported : List (List (NumberPoint K E)) → ℤ
  sum_reported [] = pos 0
  sum_reported (r ∷ rs) = sum_report r +ℤ sum_reported rs

  -- The values of the calls of `Add`.
  unfoldable pub sum_added : List (Call K E) → ℤ
  sum_added [] = pos 0
  sum_added (Call.adds v k e ∷ cs) = v +ℤ sum_added cs
  sum_added (Call.collects t ∷ cs) = sum_added cs

  -- Every collection of the calls has this temporality, delta or not.
  unfoldable pub all_collect : Bool → List (Call K E) → Bool
  all_collect d [] = true
  all_collect d (Call.adds v k e ∷ cs) = all_collect d cs
  all_collect d (Call.collects t ∷ cs) = (if is_delta t then d else not d) && all_collect d cs

  abbrev pub new : ℕ → Option Diagnostics → World K E
  new max diag = record {
    storage = record { points = []; exemplars = []; max_cardinality = max; diag = diag };
    reported = [];
  }

module _ {K : Type 0} (key_eq : K → K → Bool) where
  sum_points-add_to :
      (k : K) (v : ℤ) (ps : List (K × ℤ))
      → Same (sum_points (add_to key_eq k v ps)) (v +ℤ sum_points ps)
  unfolding add_to sum_points
  sum_points-add_to k v [] = omega int_laws
  sum_points-add_to k v (p ∷ ps) = elim (Bool-cases (key_eq p.0 k)) [
    | inl e ↦ rw e (omega int_laws)
    | inr e ↦ rw e (omega (int_laws, sum_points-add_to k v ps))
  ]

  sum_report-report :
      {E : Type 0} (ps : List (K × ℤ)) (es : List (K × E))
      → Same (sum_report (report key_eq ps es)) (sum_points ps)
  unfolding report sum_points sum_report
  sum_report-report [] es = omega arith
  sum_report-report (p ∷ ps) es = omega (int_laws, sum_report-report ps es)

module _ {K E : Type 0} (key_eq : K → K → Bool) (overflow : K) where
  -- Live and reported together.
  abbrev everything : World K E → ℤ
  everything w = sum_reported w.reported +ℤ sum_points w.storage.points

  collect_delta :
      (t : AggregationTemporality) (w : World K E)
      → is_delta t ≡ true
      → Same (everything (call key_eq overflow (Call.collects t) w)) (everything w)
  unfolding call collect sum_reported sum_points
  collect_delta t w d =
      let one = sum_report-report key_eq w.storage.points w.storage.exemplars in
      rw d (omega (int_laws, one))

  delta-Same :
      (cs : List (Call K E)) (w : World K E)
      → all_collect true cs ≡ true
      → Same (everything (calls key_eq overflow cs w)) (everything w +ℤ sum_added cs)
  unfolding calls call add collect all_collect sum_added sum_reported
  delta-Same [] w h = omega int_laws
  delta-Same (Call.adds v k e ∷ cs) w h =
      let key = if needs_drop key_eq k w.storage then overflow else k in
      let one = sum_points-add_to key_eq key v w.storage.points in
      let rest = delta-Same cs (call key_eq overflow (Call.adds v k e) w) h in
      omega (int_laws, one, rest)
  delta-Same (Call.collects t ∷ cs) w h =
      let one = collect_delta t w (ground arith) in
      let rest = delta-Same cs (call key_eq overflow (Call.collects t) w) (ground arith) in
      omega (int_laws, one, rest)

  -- For a reader that collects deltas: whatever attribute sets were counted, also past the
  -- cardinality limit, what it has got and what it will get add up to what was added.
  pub calls-delta :
      (cs : List (Call K E)) (max : ℕ) (diag : Option Diagnostics)
      → all_collect true cs ≡ true
      → sum_reported (calls key_eq overflow cs (new max diag)).reported
          +ℤ sum_points (calls key_eq overflow cs (new max diag)).storage.points
        ≡ sum_added cs
  unfolding sum_reported sum_points
  calls-delta cs max diag h = eq_of_parts _ _ (omega (int_laws, delta-Same cs (new max diag) h))

  collect_cumulative :
      (t : AggregationTemporality) (w : World K E)
      → is_delta t ≡ false
      → Same
          (sum_points (call key_eq overflow (Call.collects t) w).storage.points)
          (sum_points w.storage.points)
  unfolding call collect
  collect_cumulative t w d = rw d (omega arith)

  cumulative-Same :
      (cs : List (Call K E)) (w : World K E)
      → all_collect false cs ≡ true
      → Same
          (sum_points (calls key_eq overflow cs w).storage.points)
          (sum_points w.storage.points +ℤ sum_added cs)
  unfolding calls call add collect all_collect sum_added
  cumulative-Same [] w h = omega int_laws
  cumulative-Same (Call.adds v k e ∷ cs) w h =
      let key = if needs_drop key_eq k w.storage then overflow else k in
      let one = sum_points-add_to key_eq key v w.storage.points in
      let rest = cumulative-Same cs (call key_eq overflow (Call.adds v k e) w) h in
      omega (int_laws, one, rest)
  cumulative-Same (Call.collects t ∷ cs) w h =
      let one = collect_cumulative t w (ground arith) in
      let rest = cumulative-Same cs (call key_eq overflow (Call.collects t) w) (ground arith) in
      omega (int_laws, one, rest)

  -- For a reader that collects cumulative sums: a collection after the calls reports all that was
  -- ever added.
  calls-cumulative :
      (cs : List (Call K E)) (max : ℕ) (diag : Option Diagnostics)
      → all_collect false cs ≡ true
      → sum_report
          (collect key_eq AggregationTemporality.cumulative
            (calls key_eq overflow cs (new max diag)).storage).0
        ≡ sum_added cs
  unfolding collect sum_points
  calls-cumulative cs max diag h =
      let s = (calls key_eq overflow cs (new max diag)).storage in
      let r = sum_report-report key_eq s.points s.exemplars in
      eq_of_parts _ _ (omega (int_laws, cumulative-Same cs (new max diag) h, r))
