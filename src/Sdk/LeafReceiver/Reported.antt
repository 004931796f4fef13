-- ===== src/Sdk/LeafReceiver/Reported.antt =====
-- src/sdk/leaf_receiver.cpp, `Enqueue`: what the spans of a payload add to the counts of its result.
use microtel.Prelude.{
  ℕ, ◌+◌, ◌≤◌, ◌<◌, ◌^◌, ◌≡◌, inl, inr, Bool, true, false, if◌then◌else◌, List, [], ◌∷◌, Option,
  none, some, length, arith, Bool-cases,
}
use microtel.Prelude.Int.{ℤ}
use microtel.Sdk.Record.{SpanRecord, InstrumentationScope}
use microtel.Sdk.LeafWire.{LeafTimeMode, read_wire_info}
use microtel.Sdk.LeafReceiver.{
  IngestResult, DecodedScopeSpans, DecodedResourceSpans, Receiver, Pipeline, Surroundings,
}
use microtel.Sdk.LeafReceiver.Identity.{Identified}
use microtel.Sdk.LeafReceiver.Enqueue.{
  Route, route_of, Fate, count_fate, enqueue_span, enqueue_spans, enqueue_resource_spans,
  enqueue_with, count_losses, enqueue_one, enqueue_all,
}
use microtel.Sdk.LeafReceiver.Corrections.{correction_for, resource_for}

-- The spans that a result reports.
unfoldable pub reported : IngestResult → ℕ
reported result = result.spans_accepted + result.spans_sampled_out + result.spans_dropped

unfoldable pub scopes_length : List DecodedScopeSpans → ℕ
scopes_length [] = 0
scopes_length (scope ∷ scopes) = length scope.spans + scopes_length scopes

unfoldable pub decoded_length : List DecodedResourceSpans → ℕ
decoded_length [] = 0
decoded_length (rs ∷ rss) = scopes_length rs.scopes + decoded_length rss

reported-count_fate :
    (fate : Fate) (result : IngestResult)
    → reported result + 1 < 2 ^ 32
    → reported (count_fate fate result) ≡ reported result + 1
unfolding reported count_fate
reported-count_fate Fate.sampled_out result h = omega arith
reported-count_fate Fate.accepted result h = omega arith
reported-count_fate Fate.dropped result h = omega arith

reported-enqueue_spans :
    (route : Route) (scope : InstrumentationScope) (spans : List SpanRecord) (p : Pipeline)
    (result : IngestResult)
    → reported result + length spans < 2 ^ 32
    → reported (enqueue_spans route scope spans p result).1 ≡ reported result + length spans
unfolding enqueue_spans
reported-enqueue_spans route scope [] p result h = omega arith
reported-enqueue_spans route scope (span ∷ spans) p result h =
    let one = enqueue_span route span scope p in
    let step = reported-count_fate one.1 result (omega arith) in
    omega (
      arith,
      step,
      reported-enqueue_spans route scope spans one.0 (count_fate one.1 result)
          (omega (arith, step)),
    )

reported-enqueue_resource_spans :
    (route : Route) (scopes : List DecodedScopeSpans) (p : Pipeline) (result : IngestResult)
    → reported result + scopes_length scopes < 2 ^ 32
    → reported (enqueue_resource_spans route scopes p result).1
      ≡ reported result + scopes_length scopes
unfolding enqueue_resource_spans scopes_length
reported-enqueue_resource_spans route [] p result h = omega arith
reported-enqueue_resource_spans route (scope ∷ scopes) p result h =
    let one = enqueue_spans route scope.scope scope.spans p result in
    let step = reported-enqueue_spans route scope.scope scope.spans p result (omega arith) in
    omega
      (arith, step, reported-enqueue_resource_spans route scopes one.0 one.1 (omega (arith, step)))

reported-enqueue_with :
    (o : Option (Option ℕ)) (route : Option ℕ → Route) (scopes : List DecodedScopeSpans)
    (fell_back : Bool) (r : Receiver) (result : IngestResult)
    → reported result + scopes_length scopes < 2 ^ 32
    → (enqueue_with o route scopes fell_back r result).threw ≡ false
    → reported (enqueue_with o route scopes fell_back r result).result
      ≡ reported result + scopes_length scopes
unfolding enqueue_with
reported-enqueue_with none route scopes fell_back r result h t = absurd (ground arith)
reported-enqueue_with (some resource) route scopes fell_back r result h t =
    reported-enqueue_resource_spans (route resource) scopes r.pipeline result h

module _ (around : Surroundings) (payload : Identified) (received : ℤ) where
  reported-enqueue_one :
      (rs : DecodedResourceSpans) (mode : LeafTimeMode) (r : Receiver) (result : IngestResult)
      → reported result + scopes_length rs.scopes < 2 ^ 32
      → (enqueue_one around payload received rs mode r result).threw ≡ false
      → reported (enqueue_one around payload received rs mode r result).result
        ≡ reported result + scopes_length rs.scopes
  unfolding enqueue_one
  reported-enqueue_one rs mode r result h t =
      let info = read_wire_info rs.resource in
      let corrected = correction_for around payload received mode info (count_losses info rs r) in
      let ready = resource_for around payload rs.resource corrected.0 in
      reported-enqueue_with ready.1 (route_of around corrected.1.correction r) rs.scopes
        corrected.1.fell_back ready.0 result h t

  pub reported-enqueue_all :
      (rss : List DecodedResourceSpans) (modes : List LeafTimeMode) (fell_back : Bool)
      (r : Receiver) (result : IngestResult)
      → length modes ≡ length rss
      → reported result + decoded_length rss < 2 ^ 32
      → (enqueue_all around payload received rss modes fell_back r result).threw ≡ false
      → reported (enqueue_all around payload received rss modes fell_back r result).result
        ≡ reported result + decoded_length rss
  unfolding enqueue_all decoded_length
  reported-enqueue_all [] modes fell_back r result l h t = omega arith
  reported-enqueue_all (rs ∷ rss) [] fell_back r result l h t = absurd (omega arith)
  reported-enqueue_all (rs ∷ rss) (mode ∷ modes) fell_back r result l h t =
      let one = enqueue_one around payload received rs mode r result in
      let back = if one.fell_back then true else fell_back in
      elim (Bool-cases one.threw) [
        | inl e ↦ let t' = rw e at t in absurd (ground arith)
        | inr e ↦
            let step = reported-enqueue_one rs mode r result (omega arith) e in
            let t' = rw e at t in
            let rest =
              reported-enqueue_all rss modes back one.receiver one.result (omega arith)
                (omega (arith, step)) t' in
            rw e (omega (arith, step, rest))
      ]

-- Also when an allocation fails on the way.
reported-enqueue_with_le :
    (o : Option (Option ℕ)) (route : Option ℕ → Route) (scopes : List DecodedScopeSpans)
    (fell_back : Bool) (r : Receiver) (result : IngestResult)
    → reported result + scopes_length scopes < 2 ^ 32
    → reported (enqueue_with o route scopes fell_back r result).result
      ≤ reported result + scopes_length scopes
unfolding enqueue_with
reported-enqueue_with_le none route scopes fell_back r result h = omega arith
reported-enqueue_with_le (some resource) route scopes fell_back r result h =
    omega (arith, reported-enqueue_resource_spans (route resource) scopes r.pipeline result h)

module _ (around : Surroundings) (payload : Identified) (received : ℤ) where
  reported-enqueue_one_le :
      (rs : DecodedResourceSpans) (mode : LeafTimeMode) (r : Receiver) (result : IngestResult)
      → reported result + scopes_length rs.scopes < 2 ^ 32
      → reported (enqueue_one around payload received rs mode r result).result
        ≤ reported result + scopes_length rs.scopes
  unfolding enqueue_one
  reported-enqueue_one_le rs mode r result h =
      let info = read_wire_info rs.resource in
      let corrected = correction_for around payload received mode info (count_losses info rs r) in
      let ready = resource_for around payload rs.resource corrected.0 in
      reported-enqueue_with_le ready.1 (route_of around corrected.1.correction r) rs.scopes
        corrected.1.fell_back ready.0 result h

  pub reported-enqueue_all_le :
      (rss : List DecodedResourceSpans) (modes : List LeafTimeMode) (fell_back : Bool)
      (r : Receiver) (result : IngestResult)
      → reported result + decoded_length rss < 2 ^ 32
      → reported (enqueue_all around payload received rss modes fell_back r result).result
        ≤ reported result + decoded_length rss
  unfolding enqueue_all decoded_length
  reported-enqueue_all_le [] modes fell_back r result h = omega arith
  reported-enqueue_all_le (rs ∷ rss) [] fell_back r result h = omega arith
  reported-enqueue_all_le (rs ∷ rss) (mode ∷ modes) fell_back r result h =
      let one = enqueue_one around payload received rs mode r result in
      let back = if one.fell_back then true else fell_back in
      let step = reported-enqueue_one_le rs mode r result (omega arith) in
      let rest =
        reported-enqueue_all_le rss modes back one.receiver one.result (omega (arith, step)) in
      elim (Bool-cases one.threw) [
        | inl e ↦ rw e (omega (arith, step))
        | inr e ↦ rw e (omega (arith, step, rest))
      ]
