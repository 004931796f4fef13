-- ===== src/Sdk/Samplers.antt =====
-- src/sdk/sampler_factories.cpp, src/sdk/sampler_chains.cpp and `SdkProvider::SetSamplerRatio`: the
-- samplers as one tree. A finite `double` is its exact value times 2^1074, an integer for each of
-- them, so a product with 2^64 is exact. The description strings and the locks of `TrySetRatio`
-- are left out; a sampler of the application is a function that has no ratio to set.
pub mod Ratio
pub mod Chain
pub mod Retune
pub mod Tuned
mod Tests
use microtel.Prelude.{
  ℕ, zero, suc, ◌+◌, ◌-◌, ◌*◌, ◌/◌, ◌%◌, ◌^◌, Bool, true, false, not, ◌&&◌, ◌||◌, ◌==◌, ltb,
  if◌then◌else◌, List, [], ◌∷◌, Option, none, some, take, drop,
}
use microtel.Prelude.Int.{ℤ, pos, negsuc, ltb_ℤ, pos_part, neg_part}
use microtel.Prelude.Bytes.{Bytes, bytes_eq}
use microtel.Api.Trace.{SpanContext, is_valid, is_sampled}
use microtel.Api.TraceState.{TraceState}
use microtel.Sdk.Record.{AttributeValue, KeyValue, SpanKind, SpanLink}

pub data Double : Type 0 where
  nan minus_infinity infinity : Double
  finite : ℤ → Double

-- 2^-64, and 1.0.
unfoldable pub step64 : ℕ
step64 = 2 ^ 1010

unfoldable pub one : ℕ
one = 2 ^ 64 * step64

-- `ratio >= 1.0` and `ratio <= 0.0`.
unfoldable pub at_least_one : Double → Bool
at_least_one (finite z) = not (ltb_ℤ z (pos one))
at_least_one infinity = true
at_least_one _ = false

unfoldable pub at_most_zero : Double → Bool
at_most_zero (finite z) = not (ltb_ℤ (pos 0) z)
at_most_zero minus_infinity = true
at_most_zero _ = false

-- `a == b`.
unfoldable pub double_eq : Double → Double → Bool
double_eq (finite a) (finite b) = pos_part a + neg_part b == pos_part b + neg_part a
double_eq infinity infinity = true
double_eq minus_infinity minus_infinity = true
double_eq _ _ = false

abbrev pub uint64_max : ℕ
uint64_max = 2 ^ 64 - 1

-- `static_cast<std::uint64_t>(ratio * max_d)`, where `max_d` is 2^64; undefined for a ratio that
-- is no number, which no caller passes.
unfoldable pub scaled : Double → ℕ
scaled (finite z) = pos_part z / step64
scaled _ = 0

unfoldable pub compute_threshold : Double → ℕ
compute_threshold ratio =
    if at_least_one ratio then uint64_max else if at_most_zero ratio then 0 else scaled ratio

unfoldable pub normalise_ratio : Double → Double
normalise_ratio nan = finite (pos 0)
normalise_ratio infinity = finite (pos one)
normalise_ratio minus_infinity = finite (pos 0)
normalise_ratio (finite z) =
    if ltb_ℤ z (pos 0)
    then finite (pos 0)
    else if ltb_ℤ (pos one) z
    then finite (pos one)
    else finite z

-- The eight bytes from the given one on, the first one highest.
unfoldable pub read_be64 : ℕ → Bytes → ℕ
read_be64 v [] = v
read_be64 v (b ∷ bs) = read_be64 (v * 256 % 2 ^ 64 + b) bs

unfoldable pub read_lower_be64 : Bytes → ℕ
read_lower_be64 trace_id = read_be64 0 (take 8 (drop 8 trace_id))

pub data SamplingDecision : Type 0 where
  drops record_only record_and_sample : SamplingDecision

pub record SamplingResult : Type 0 where
  pub decision : SamplingDecision
  pub additional_attributes : List KeyValue
  pub trace_state : Option TraceState

pub record SamplingContext : Type 0 where
  pub parent : SpanContext
  pub span_kind : SpanKind
  pub span_name : Bytes
  pub initial_attributes : List KeyValue
  pub links : List SpanLink
  pub trace_id : Bytes

pub record TraceIdRatioSampler : Type 0 where
  pub ratio : Double
  pub threshold : ℕ

pub data ChainMode : Type 0 where
  first_match all_must_agree : ChainMode

-- The predicate of a rule.
pub data Rule : Type 0 where
  attribute : Bytes → AttributeValue → Rule
  span_name : Bytes → Rule
  span_kind : SpanKind → Rule

-- The root of a parent-based sampler is never empty, by its contract; a chain stores no empty
-- handles.
mutual
  pub data Sampler : Type 0 where
    always_on always_off : Sampler
    trace_id_ratio : TraceIdRatioSampler → Sampler
    parent_based : Sampler → Sampler
    rule : Rule → SamplerHandle → SamplerHandle → Sampler
    chain : Children → ChainMode → Sampler
    custom : (SamplingContext → SamplingResult) → Sampler

  pub data SamplerHandle : Type 0 where
    empty : SamplerHandle
    holds : Sampler → SamplerHandle

  pub data Children : Type 0 where
    nil : Children
    cons : Sampler → Children → Children

abbrev pub plain : SamplingDecision → SamplingResult
plain d = record { decision = d; additional_attributes = []; trace_state = none }

abbrev pub drop_result : SamplingResult
drop_result = plain SamplingDecision.drops

unfoldable pub make_ratio : Double → TraceIdRatioSampler
make_ratio r = record {
  ratio = normalise_ratio r;
  threshold = compute_threshold (normalise_ratio r);
}

unfoldable pub sample_decision : TraceIdRatioSampler → SamplingContext → SamplingDecision
sample_decision t ctx =
    if t.threshold == uint64_max
    then SamplingDecision.record_and_sample
    else if ltb (read_lower_be64 ctx.trace_id) t.threshold
    then SamplingDecision.record_and_sample
    else SamplingDecision.drops

unfoldable pub build_children : List SamplerHandle → Children
build_children [] = nil
build_children (empty ∷ hs) = build_children hs
build_children (holds s ∷ hs) = cons s (build_children hs)

-- `==` of two doubles by their bits: no value for a NaN, one for the two zeros.
abbrev is_nan_bits : ℕ → Bool
is_nan_bits b = (b / 2 ^ 52 % 2 ^ 11 == 2 ^ 11 - 1) && not (b % 2 ^ 52 == 0)

unfoldable pub bits_eq : ℕ → ℕ → Bool
bits_eq a b =
    not (is_nan_bits a || is_nan_bits b) && ((a == b) || ((a % 2 ^ 63 == 0) && (b % 2 ^ 63 == 0)))

abbrev list_eq : {A : Type 0} → (A → A → Bool) → List A → List A → Bool
list_eq eq [] [] = true
list_eq eq (x ∷ xs) (y ∷ ys) = eq x y && list_eq eq xs ys
list_eq eq _ _ = false

abbrev bool_eq : Bool → Bool → Bool
bool_eq true b = b
bool_eq false b = not b

abbrev int_eq : ℤ → ℤ → Bool
int_eq a b = pos_part a + neg_part b == pos_part b + neg_part a

unfoldable pub value_eq : AttributeValue → AttributeValue → Bool
value_eq (AttributeValue.boolean a) (AttributeValue.boolean b) = bool_eq a b
value_eq (AttributeValue.int64 a) (AttributeValue.int64 b) = int_eq a b
value_eq (AttributeValue.double a) (AttributeValue.double b) = bits_eq a b
value_eq (AttributeValue.string a) (AttributeValue.string b) = bytes_eq a b
value_eq (AttributeValue.booleans a) (AttributeValue.booleans b) = list_eq bool_eq a b
value_eq (AttributeValue.int64s a) (AttributeValue.int64s b) = list_eq int_eq a b
value_eq (AttributeValue.doubles a) (AttributeValue.doubles b) = list_eq bits_eq a b
value_eq (AttributeValue.strings a) (AttributeValue.strings b) = list_eq bytes_eq a b
value_eq _ _ = false

abbrev pub kind_index : SpanKind → ℕ
kind_index SpanKind.internal = 0
kind_index SpanKind.server = 1
kind_index SpanKind.client = 2
kind_index SpanKind.producer = 3
kind_index SpanKind.consumer = 4

-- `find_if` over the attributes, and the comparison of what it found.
unfoldable pub attribute_matches : Bytes → AttributeValue → List KeyValue → Bool
attribute_matches key expected [] = false
attribute_matches key expected (kv ∷ kvs) =
    let rest = attribute_matches key expected kvs in
    if bytes_eq kv.key key then value_eq kv.value expected else rest

unfoldable pub rule_matches : Rule → SamplingContext → Bool
rule_matches (attribute key expected) ctx = attribute_matches key expected ctx.initial_attributes
rule_matches (span_name name) ctx = bytes_eq ctx.span_name name
rule_matches (span_kind kind) ctx = kind_index ctx.span_kind == kind_index kind

-- `child.rule == nullptr || child.rule->Matches(ctx)`.
unfoldable pub child_matches : Sampler → SamplingContext → Bool
child_matches (rule r on_match on_no_match) ctx = rule_matches r ctx
child_matches _ ctx = true

abbrev pub is_record_and_sample : SamplingDecision → Bool
is_record_and_sample SamplingDecision.record_and_sample = true
is_record_and_sample _ = false

unfoldable mutual
  pub should_sample : Sampler → SamplingContext → SamplingResult
  should_sample always_on ctx = plain SamplingDecision.record_and_sample
  should_sample always_off ctx = plain SamplingDecision.drops
  should_sample (trace_id_ratio t) ctx = plain (sample_decision t ctx)
  should_sample (parent_based root) ctx =
      let result = should_sample root ctx in
      if is_valid ctx.parent && is_sampled ctx.parent.trace_flags
      then plain SamplingDecision.record_and_sample
      else result
  should_sample (rule r on_match on_no_match) ctx =
      let matched = delegate on_match ctx in
      let other = delegate on_no_match ctx in if rule_matches r ctx then matched else other
  should_sample (chain cs ChainMode.first_match) ctx = evaluate_first_match cs ctx
  should_sample (chain cs ChainMode.all_must_agree) ctx = evaluate_all_must_agree drop_result cs ctx
  should_sample (custom f) ctx = f ctx

  -- An empty delegate answers `Drop`.
  pub delegate : SamplerHandle → SamplingContext → SamplingResult
  delegate empty ctx = drop_result
  delegate (holds s) ctx = should_sample s ctx

  pub evaluate_first_match : Children → SamplingContext → SamplingResult
  evaluate_first_match nil ctx = drop_result
  evaluate_first_match (cons s cs) ctx =
      let result = should_sample s ctx in
      let rest = evaluate_first_match cs ctx in if child_matches s ctx then result else rest

  -- The loop, with the result so far.
  pub evaluate_all_must_agree : SamplingResult → Children → SamplingContext → SamplingResult
  evaluate_all_must_agree result nil ctx = result
  evaluate_all_must_agree result (cons s cs) ctx =
      let result' = should_sample s ctx in
      let rest = evaluate_all_must_agree result' cs ctx in
      if is_record_and_sample result'.decision then rest else drop_result

-- The new sampler, and whether a ratio was set in it. Every delegate and every child is asked.
unfoldable mutual
  pub try_set_ratio : Double → Sampler → Sampler × Bool
  try_set_ratio ratio (trace_id_ratio t) =
      if double_eq ratio t.ratio
      then (trace_id_ratio t, true)
      else (trace_id_ratio (record { ratio = ratio; threshold = compute_threshold ratio }), true)
  try_set_ratio ratio (parent_based root) =
      let r = try_set_ratio ratio root in (parent_based r.0, r.1)
  try_set_ratio ratio (rule p on_match on_no_match) =
      let a = try_delegate ratio on_match in
      let b = try_delegate ratio on_no_match in (rule p a.0 b.0, b.1 || a.1)
  try_set_ratio ratio (chain cs mode) = let r = try_children ratio cs in (chain r.0 mode, r.1)
  try_set_ratio ratio s = (s, false)

  pub try_delegate : Double → SamplerHandle → SamplerHandle × Bool
  try_delegate ratio empty = (empty, false)
  try_delegate ratio (holds s) = let r = try_set_ratio ratio s in (holds r.0, r.1)

  pub try_children : Double → Children → Children × Bool
  try_children ratio nil = (nil, false)
  try_children ratio (cons s cs) =
      let a = try_set_ratio ratio s in
      let rest = try_children ratio cs in (cons a.0 rest.0, a.1 || rest.1)

-- What `SetSamplerRatio` can answer.
pub data Status : Type 0 where
  completed already_shut_down invalid_argument unsupported : Status

-- `std::isnan(ratio) || ratio < 0.0 || ratio > 1.0`.
unfoldable pub out_of_range : Double → Bool
out_of_range (finite z) = ltb_ℤ z (pos 0) || ltb_ℤ (pos one) z
out_of_range _ = true

unfoldable pub set_sampler_ratio : Bool → Double → SamplerHandle → SamplerHandle × Status
set_sampler_ratio shut_down ratio h =
    let r = try_delegate ratio h in
    if shut_down
    then (h, already_shut_down)
    else if out_of_range ratio
    then (h, invalid_argument)
    else if r.1
    then (r.0, completed)
    else (r.0, unsupported)
