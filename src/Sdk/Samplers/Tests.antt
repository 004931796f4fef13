-- ===== src/Sdk/Samplers/Tests.antt =====
-- A parent-based ratio sampler in a chain, and the theorems at it.
use microtel.Prelude.{◌*◌, ◌≡◌, ◌^◌, refl, true, false, [], ◌∷◌, none, arith, replicate, ◌++◌}
use microtel.Prelude.Int.{pos}
use microtel.Api.Trace.{SpanContext, is_valid, is_sampled, id_is_valid}
use microtel.Sdk.Record.{SpanKind}
use microtel.Sdk.Samplers.{
  Double, Sampler, SamplerHandle, Children, ChainMode, Rule, SamplingContext, Status, step64, one,
  make_ratio, normalise_ratio, compute_threshold, at_least_one, at_most_zero, scaled, should_sample,
  sample_decision, read_be64, read_lower_be64, set_sampler_ratio, rule_matches, out_of_range,
}
use microtel.Sdk.Samplers.Chain.{samples, with_ratio_raise}
use microtel.Sdk.Samplers.Retune.{with_ratio, IsTuned, outcome, set_sampler_ratio-outcome}

-- 0.5 and 0.75.
abbrev half : Double
half = Double.finite (pos (2 ^ 1073))

abbrev three_quarters : Double
three_quarters = Double.finite (pos (3 * 2 ^ 1072))

abbrev no_parent : SpanContext
no_parent = record {
  trace_id = [];
  span_id = [];
  trace_flags = 0;
  trace_state = none;
  remote = false;
}

-- The low half of the trace id starts with 0x60.
abbrev context : SamplingContext
context = record {
  parent = no_parent;
  span_kind = SpanKind.server;
  span_name = [];
  initial_attributes = [];
  links = [];
  trace_id = replicate 8 1 ++ 96 ∷ replicate 7 0;
}

abbrev children : Double → Children
children r =
    Children.cons
      (Sampler.rule (Rule.span_kind SpanKind.server)
        (SamplerHandle.holds (Sampler.parent_based (Sampler.trace_id_ratio (make_ratio r))))
        SamplerHandle.empty)
      (Children.cons Sampler.always_on Children.nil)

abbrev ratio_tree : Double → Sampler
ratio_tree r = Sampler.chain (children r) ChainMode.all_must_agree

half_threshold : (make_ratio half).threshold ≡ 2 ^ 63
unfolding make_ratio normalise_ratio compute_threshold at_least_one at_most_zero scaled one step64
half_threshold = refl

sampled_at_half : samples (ratio_tree half) context ≡ true
unfolding make_ratio normalise_ratio compute_threshold at_least_one at_most_zero scaled one step64
    should_sample sample_decision read_lower_be64 read_be64 rule_matches is_valid is_sampled
    id_is_valid
sampled_at_half = refl

with_ratio_raise_example :
    samples (with_ratio (make_ratio three_quarters) (ratio_tree half)) context ≡ true
unfolding with_ratio
with_ratio_raise_example =
    with_ratio_raise half three_quarters (ratio_tree half) context (omega arith) sampled_at_half

tree-IsTuned : IsTuned (ratio_tree half)
unfolding IsTuned make_ratio
tree-IsTuned = ((refl, tt), (tt, tt))

abbrev handle : SamplerHandle
handle = SamplerHandle.holds (ratio_tree half)

set_sampler_ratio-outcome_example :
    set_sampler_ratio false three_quarters handle ≡ outcome false three_quarters handle
set_sampler_ratio-outcome_example =
    set_sampler_ratio-outcome false three_quarters handle (unfold IsTuned in tree-IsTuned)

-- A ratio above 1 is refused.
refused :
    (set_sampler_ratio false (Double.finite (pos (2 ^ 1075))) handle).1 ≡ Status.invalid_argument
unfolding set_sampler_ratio out_of_range one step64
refused = refl
