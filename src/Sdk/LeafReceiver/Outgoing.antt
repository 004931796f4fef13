-- ===== src/Sdk/LeafReceiver/Outgoing.antt =====
-- src/sdk/leaf_receiver.cpp, `EnqueueSpan`: the spans as they are handed to the processor.
use microtel.Prelude.{
  ℕ, Bool, true, false, ◌≡◌, refl, if◌then◌else◌, not, List, [], ◌∷◌, ◌++◌, Option, none, some,
}
use microtel.Sdk.Diagnostics.{Diagnostics}
use microtel.Sdk.Record.{SpanRecord, InstrumentationScope}
use microtel.Sdk.BatchSpan.{Processor}
use microtel.Sdk.BatchSpan.Each.{EachQueued, enqueue-EachQueued}
use microtel.Sdk.Samplers.{SamplingResult, should_sample}
use microtel.Sdk.SpanLimits.{SpanLimitOptions}
use microtel.Sdk.SpanLimits.Apply.{IsWithinLimits, apply_span_limits-IsWithinLimits}
use microtel.Sdk.SpanLimits.Added.{append_attributes-AttributesFit}
use microtel.Sdk.LeafTime.{TimeCorrection, apply_time_correction}
use microtel.Sdk.LeafReceiver.{IngestResult, DecodedScopeSpans, Pipeline}
use microtel.Sdk.LeafReceiver.Enqueue.{
  Route, Fate, limited, sampled, context_of, is_sampled_in, hand_over, enqueue_span, count_fate,
  enqueue_spans, enqueue_resource_spans, sampled_flag,
}

-- A span that may go out.
pub record IsOutgoing (limits : SpanLimitOptions) (span : SpanRecord) : Type 0 where
  pub within : IsWithinLimits limits span
  pub flagged : span.context.trace_flags ≡ sampled_flag

unfoldable pub EachHanded : SpanLimitOptions → List (SpanRecord × InstrumentationScope) → Type 0
EachHanded limits [] = Unit
EachHanded limits (h ∷ hs) = IsOutgoing limits h.0 × EachHanded limits hs

abbrev pub EachIn : SpanLimitOptions → Option Processor → Type 0
EachIn limits none = Unit
EachIn limits (some b) = EachQueued (IsOutgoing limits) b.queue

-- Every span that waits in the batch processor, or that another one was given.
abbrev pub IsKept : SpanLimitOptions → Pipeline → Type 0
IsKept limits p = EachHanded limits p.handed × EachIn limits p.batch

append-EachHanded :
    (limits : SpanLimitOptions) (hs : List (SpanRecord × InstrumentationScope)) (span : SpanRecord)
    (scope : InstrumentationScope)
    → EachHanded limits hs
    → IsOutgoing limits span
    → EachHanded limits (hs ++ (span, scope) ∷ [])
unfolding EachHanded
append-EachHanded limits [] span scope h k = (k, tt)
append-EachHanded limits (x ∷ hs) span scope h k =
    (h.0, append-EachHanded limits hs span scope h.1 k)

-- The processor as a value: the shared sink goes in and comes out.
hand_over-IsKept :
    (limits : SpanLimitOptions) (span : SpanRecord) (scope : InstrumentationScope)
    (diag : Diagnostics) (handed : List (SpanRecord × InstrumentationScope))
    (batch : Option Processor)
    → IsKept limits (record { diag = diag; batch = batch; handed = handed })
    → IsOutgoing limits span
    → IsKept limits
        (hand_over span scope (record { diag = diag; batch = batch; handed = handed })).0
unfolding hand_over
hand_over-IsKept limits span scope diag handed none h k =
    (append-EachHanded limits handed span scope h.0 k, tt)
hand_over-IsKept limits span scope diag handed (some b) h k =
    (h.0, enqueue-EachQueued (IsOutgoing limits) (record b { diag = diag }) span scope h.1 k)

limited-IsWithinLimits :
    (span : SpanRecord) (c : TimeCorrection) (limits : SpanLimitOptions) (diag : Diagnostics)
    → IsWithinLimits limits (limited span c limits diag).0
unfolding limited
limited-IsWithinLimits span c limits diag =
    apply_span_limits-IsWithinLimits (apply_time_correction span c) limits (some diag)

sampled-IsOutgoing :
    (span : SpanRecord) (sampling : SamplingResult) (resource : Option ℕ)
    (limits : SpanLimitOptions) (fails : ℕ → Bool) (diag : Diagnostics)
    → IsWithinLimits limits span
    → IsOutgoing limits (sampled span sampling resource limits fails diag).0
unfolding sampled
sampled-IsOutgoing span sampling resource limits fails diag h = record {
  within = record {
    own =
        append_attributes-AttributesFit span.attributes sampling.additional_attributes limits fails
          (some diag) h.own;
    few_events = h.few_events;
    events_fit = h.events_fit;
    few_links = h.few_links;
    links_fit = h.links_fit;
  };
  flagged = refl;
}

if_IsKept :
    (limits : SpanLimitOptions) (b : Bool) (x y : Pipeline × Fate)
    → IsKept limits x.0
    → IsKept limits y.0
    → IsKept limits (if b then x else y).0
if_IsKept limits true x y p q = p
if_IsKept limits false x y p q = q

enqueue_span-IsKept :
    (route : Route) (span : SpanRecord) (scope : InstrumentationScope) (p : Pipeline)
    → IsKept route.span_limits p
    → IsKept route.span_limits (enqueue_span route span scope p).0
unfolding enqueue_span
enqueue_span-IsKept route span scope p h =
    let limits = route.span_limits in
    let cut = limited span route.correction limits p.diag in
    let sampling = should_sample route.sampler (context_of cut.0) in
    let out = sampled cut.0 sampling route.resource limits (route.append_fails cut.0) cut.1 in
    let within = limited-IsWithinLimits span route.correction limits p.diag in
    if_IsKept limits (not (is_sampled_in sampling.decision))
      (record p { diag = cut.1 }, Fate.sampled_out)
      (hand_over out.0 scope (record p { diag = out.1 })) h
      (hand_over-IsKept limits out.0 scope out.1 p.handed p.batch h (
        sampled-IsOutgoing cut.0 sampling route.resource limits (route.append_fails cut.0) cut.1
          within))

enqueue_spans-IsKept :
    (route : Route) (scope : InstrumentationScope) (spans : List SpanRecord) (p : Pipeline)
    (result : IngestResult)
    → IsKept route.span_limits p
    → IsKept route.span_limits (enqueue_spans route scope spans p result).0
unfolding enqueue_spans
enqueue_spans-IsKept route scope [] p result h = h
enqueue_spans-IsKept route scope (span ∷ spans) p result h =
    let one = enqueue_span route span scope p in
    enqueue_spans-IsKept route scope spans one.0 (count_fate one.1 result)
      (enqueue_span-IsKept route span scope p h)

pub enqueue_resource_spans-IsKept :
    (route : Route) (scopes : List DecodedScopeSpans) (p : Pipeline) (result : IngestResult)
    → IsKept route.span_limits p
    → IsKept route.span_limits (enqueue_resource_spans route scopes p result).0
unfolding enqueue_resource_spans
enqueue_resource_spans-IsKept route [] p result h = h
enqueue_resource_spans-IsKept route (scope ∷ scopes) p result h =
    let one = enqueue_spans route scope.scope scope.spans p result in
    enqueue_resource_spans-IsKept route scopes one.0 one.1
      (enqueue_spans-IsKept route scope.scope scope.spans p result h)
