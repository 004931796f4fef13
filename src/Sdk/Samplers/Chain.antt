-- ===== src/Sdk/Samplers/Chain.antt =====
-- The decisions of a tree of samplers: the two chain modes, and the effect of a higher ratio.
use microtel.Prelude.{
  ◌≤◌, ◌≡◌, refl, sym, ap, ◌∙◌, inl, inr, Bool, true, false, ◌&&◌, ◌||◌, if◌then◌else◌, arith,
  Bool-cases,
}
use microtel.Api.Trace.{is_valid, is_sampled}
use microtel.Sdk.Samplers.{
  Double, TraceIdRatioSampler, Sampler, SamplerHandle, Children, ChainMode, SamplingContext,
  SamplingResult, normalise_ratio, drop_result, uint64_max, make_ratio, rule_matches, child_matches,
  is_record_and_sample, should_sample, delegate, evaluate_first_match, evaluate_all_must_agree,
}
use microtel.Sdk.Samplers.Ratio.{
  IsAtMost, compute_threshold_mono, threshold_bound, normalise_mono, sample_decision_mono,
}
use microtel.Sdk.Samplers.Retune.{with_ratio, handle_with_ratio, children_with_ratio}

-- Whether a span with this context is sampled.
abbrev pub samples : Sampler → SamplingContext → Bool
samples s ctx = is_record_and_sample (should_sample s ctx).decision

unfoldable pub all_sample : Children → SamplingContext → Bool
all_sample Children.nil ctx = true
all_sample (Children.cons s cs) ctx = samples s ctx && all_sample cs ctx

unfoldable pub some_child : Children → Bool
some_child Children.nil = false
some_child (Children.cons s cs) = true

unfoldable pub last_result : SamplingResult → Children → SamplingContext → SamplingResult
last_result r Children.nil ctx = r
last_result r (Children.cons s cs) ctx = last_result (should_sample s ctx) cs ctx

and_intro : {a b : Bool} → a ≡ true → b ≡ true → (a && b) ≡ true
and_intro p q = rw (p, q) refl

and_left : (a b : Bool) → (a && b) ≡ true → a ≡ true
and_left a b h = ground arith

and_right : (a b : Bool) → (a && b) ≡ true → b ≡ true
and_right a b h = ground arith

or_false : (a : Bool) → (a || false) ≡ a
or_false a = ground arith

and_true : (a : Bool) → (a && true) ≡ a
and_true a = ground arith

and_false : (a : Bool) → false ≡ (a && false)
and_false a = ground arith

or_true : (a b : Bool) → b ≡ true → (a || b) ≡ true
or_true a b h = ground arith

agree-last_result :
    (r : SamplingResult) (cs : Children) (ctx : SamplingContext)
    → evaluate_all_must_agree r cs ctx
      ≡ (if all_sample cs ctx then last_result r cs ctx else drop_result)
unfolding should_sample all_sample last_result
agree-last_result r Children.nil ctx = refl
agree-last_result r (Children.cons s cs) ctx =
    elim (Bool-cases (is_record_and_sample (should_sample s ctx).decision)) [
      | inl e ↦ rw e (agree-last_result (should_sample s ctx) cs ctx)
      | inr e ↦ rw e refl
    ]

last_result-samples :
    (r : SamplingResult) (cs : Children) (ctx : SamplingContext)
    → all_sample cs ctx ≡ true
    → is_record_and_sample (last_result r cs ctx).decision
      ≡ (some_child cs || is_record_and_sample r.decision)
unfolding all_sample last_result some_child
last_result-samples r Children.nil ctx h = refl
last_result-samples r (Children.cons s cs) ctx h =
    let rest = last_result-samples (should_sample s ctx) cs ctx (ground arith) in
    rest ∙ or_true (some_child cs) (samples s ctx) (and_left (samples s ctx) (all_sample cs ctx) h)

-- A chain whose children must all agree samples when it has a child and every child samples, and
-- then answers the last child's result; else it answers the plain drop.
should_sample-all_must_agree :
    (cs : Children) (ctx : SamplingContext)
    → (should_sample (Sampler.chain cs ChainMode.all_must_agree) ctx
        ≡ (if all_sample cs ctx then last_result drop_result cs ctx else drop_result))
      × (samples (Sampler.chain cs ChainMode.all_must_agree) ctx
          ≡ (some_child cs && all_sample cs ctx))
unfolding should_sample
should_sample-all_must_agree cs ctx =
    let e = agree-last_result drop_result cs ctx in
    (
      e,
      ap (λ (r : SamplingResult). is_record_and_sample r.decision) e
          ∙ elim (Bool-cases (all_sample cs ctx)) [
            | inl a ↦ rw a (
                last_result-samples drop_result cs ctx a
                ∙ or_false (some_child cs)
                ∙ sym (and_true (some_child cs)))
            | inr a ↦ rw a (and_false (some_child cs))
          ],
    )

child_matches-with_ratio :
    (t : TraceIdRatioSampler) (s : Sampler) (ctx : SamplingContext)
    → child_matches (with_ratio t s) ctx ≡ child_matches s ctx
unfolding child_matches with_ratio
child_matches-with_ratio t (Sampler.trace_id_ratio old) ctx = refl
child_matches-with_ratio t (Sampler.parent_based root) ctx = refl
child_matches-with_ratio t (Sampler.rule p a b) ctx = refl
child_matches-with_ratio t (Sampler.chain cs mode) ctx = refl
child_matches-with_ratio t Sampler.always_on ctx = refl
child_matches-with_ratio t Sampler.always_off ctx = refl
child_matches-with_ratio t (Sampler.custom f) ctx = refl

some_child-with_ratio :
    (t : TraceIdRatioSampler) (cs : Children)
    → some_child (children_with_ratio t cs) ≡ some_child cs
unfolding some_child with_ratio
some_child-with_ratio t Children.nil = refl
some_child-with_ratio t (Children.cons s cs) = refl

module _ (t u : TraceIdRatioSampler) (h : t.threshold ≤ u.threshold)
    (b : u.threshold ≤ uint64_max) where
  -- What a tree samples with one ratio sampler in every place it samples with one of a higher
  -- threshold.
  mutual
    unfolding should_sample with_ratio all_sample

    with_ratio_mono :
        (s : Sampler) (ctx : SamplingContext)
        → samples (with_ratio t s) ctx ≡ true
        → samples (with_ratio u s) ctx ≡ true
    with_ratio_mono (Sampler.trace_id_ratio old) ctx e = sample_decision_mono t u ctx h b e
    with_ratio_mono (Sampler.parent_based root) ctx e =
        elim (Bool-cases (is_valid ctx.parent && is_sampled ctx.parent.trace_flags)) [
          | inl p ↦ rw p refl
          | inr p ↦ rw p (with_ratio_mono root ctx (rw p at e))
        ]
    with_ratio_mono (Sampler.rule r x y) ctx e = elim (Bool-cases (rule_matches r ctx)) [
      | inl p ↦ rw p (delegate_mono x ctx (rw p at e))
      | inr p ↦ rw p (delegate_mono y ctx (rw p at e))
    ]
    with_ratio_mono (Sampler.chain cs ChainMode.first_match) ctx e = first_match_mono cs ctx e
    with_ratio_mono (Sampler.chain cs ChainMode.all_must_agree) ctx e =
        let before = (should_sample-all_must_agree (children_with_ratio t cs) ctx).1 in
        let after = (should_sample-all_must_agree (children_with_ratio u cs) ctx).1 in
        let k : (some_child (children_with_ratio t cs) && all_sample (children_with_ratio t cs) ctx)
            ≡ true =
          sym before ∙ e in
        after
        ∙ and_intro
            (some_child-with_ratio u cs
              ∙ sym (some_child-with_ratio t cs)
              ∙ and_left (some_child (children_with_ratio t cs))
                  (all_sample (children_with_ratio t cs) ctx) k)
            (all_sample_mono cs ctx (
              and_right (some_child (children_with_ratio t cs))
                (all_sample (children_with_ratio t cs) ctx) k))
    with_ratio_mono Sampler.always_on ctx e = e
    with_ratio_mono Sampler.always_off ctx e = e
    with_ratio_mono (Sampler.custom f) ctx e = e

    delegate_mono :
        (x : SamplerHandle) (ctx : SamplingContext)
        → is_record_and_sample (delegate (handle_with_ratio t x) ctx).decision ≡ true
        → is_record_and_sample (delegate (handle_with_ratio u x) ctx).decision ≡ true
    delegate_mono SamplerHandle.empty ctx e = e
    delegate_mono (SamplerHandle.holds s) ctx e = with_ratio_mono s ctx e

    first_match_mono :
        (cs : Children) (ctx : SamplingContext)
        → is_record_and_sample (evaluate_first_match (children_with_ratio t cs) ctx).decision ≡ true
        → is_record_and_sample (evaluate_first_match (children_with_ratio u cs) ctx).decision ≡ true
    first_match_mono Children.nil ctx e = e
    first_match_mono (Children.cons s cs) ctx e =
        let m = child_matches-with_ratio t s ctx in
        let n = child_matches-with_ratio u s ctx in
        elim (Bool-cases (child_matches s ctx)) [
          | inl p ↦ rw (n, p) (with_ratio_mono s ctx (rw (m, p) at e))
          | inr p ↦ rw (n, p) (first_match_mono cs ctx (rw (m, p) at e))
        ]

    all_sample_mono :
        (cs : Children) (ctx : SamplingContext)
        → all_sample (children_with_ratio t cs) ctx ≡ true
        → all_sample (children_with_ratio u cs) ctx ≡ true
    all_sample_mono Children.nil ctx e = e
    all_sample_mono (Children.cons s cs) ctx e =
        and_intro
          (with_ratio_mono s ctx
            (and_left (samples (with_ratio t s) ctx) (all_sample (children_with_ratio t cs) ctx) e))
          (all_sample_mono cs ctx (
            and_right (samples (with_ratio t s) ctx) (all_sample (children_with_ratio t cs) ctx) e))

-- Setting a higher ratio in a tree of samplers drops no trace that the lower one samples, whatever
-- rules, chains and parent-based samplers the tree is made of.
pub with_ratio_raise :
    (low high : Double) (s : Sampler) (ctx : SamplingContext)
    → IsAtMost low high
    → samples (with_ratio (make_ratio low) s) ctx ≡ true
    → samples (with_ratio (make_ratio high) s) ctx ≡ true
unfolding make_ratio
with_ratio_raise low high s ctx h e =
    with_ratio_mono (make_ratio low) (make_ratio high)
      (compute_threshold_mono (normalise_ratio low) (normalise_ratio high)
        (normalise_mono low high h))
      (threshold_bound (normalise_ratio high)) s ctx e
