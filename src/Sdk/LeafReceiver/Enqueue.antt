-- ===== src/Sdk/LeafReceiver/Enqueue.antt =====
-- src/sdk/leaf_receiver.cpp, `Enqueue` and what it calls: each span's way through the limits and the
-- sampler to the processor.
use microtel.Prelude.{
  ◌+◌, ◌%◌, ◌^◌, replicate, ℕ, Bool, true, false, if◌then◌else◌, not, List, [], ◌∷◌, ◌++◌, Option,
  none, some,
}
use microtel.Prelude.Int.{ℤ}
use microtel.Api.Trace.{SpanContext}
use microtel.Api.TraceState.{TraceState}
use microtel.Sdk.Diagnostics.{Diagnostics, DropReason, fetch_add}
use microtel.Sdk.Record.{SpanRecord, InstrumentationScope}
use microtel.Sdk.BatchSpan.{Processor}
use microtel.Sdk.BatchSpan as BatchSpan
use microtel.Sdk.Samplers.{
  Sampler, SamplingDecision, SamplingResult, SamplingContext, should_sample,
}
use microtel.Sdk.SpanLimits.{SpanLimitOptions, Sink, apply_span_limits, append_attributes}
use microtel.Sdk.LeafTime.{TimeCorrection, apply_time_correction}
use microtel.Sdk.LeafWire.{LeafTimeMode, LeafWireInfo, read_wire_info}
use microtel.Sdk.LeafReceiver.{
  IngestResult, DecodedScopeSpans, DecodedResourceSpans, Receiver, Pipeline, Surroundings,
  count_drop, reported_drops,
}
use microtel.Sdk.LeafReceiver.Identity.{Identified, count_dropped_attributes}
use microtel.Sdk.LeafReceiver.Corrections.{resource_for, correction_for}

-- A `TraceFlags` of `kSampled`.
abbrev pub sampled_flag : ℕ
sampled_flag = 1

abbrev pub add32 : ℕ → ℕ
add32 n = (n + 1) % 2 ^ 32

-- The empty parent of a root.
abbrev no_parent : SpanContext
no_parent = record {
  trace_id = replicate 16 0;
  span_id = replicate 8 0;
  trace_flags = 0;
  trace_state = none;
  remote = false;
}

-- The sink that the limits count in is attached, so it comes back.
abbrev sink_of : Diagnostics → Sink → Diagnostics
sink_of d none = d
sink_of d (some d') = d'

-- The span once its time is corrected and the limits are applied, and the sink.
unfoldable pub limited :
    SpanRecord → TimeCorrection → SpanLimitOptions → Diagnostics → SpanRecord × Diagnostics
limited span correction limits diag =
    let (cut, sink) =
      apply_span_limits (apply_time_correction span correction) limits (some diag) in
    (cut, sink_of diag sink)

abbrev pub context_of : SpanRecord → SamplingContext
context_of span = record {
  parent = no_parent;
  span_kind = span.kind;
  span_name = span.name;
  initial_attributes = span.attributes;
  links = span.links;
  trace_id = span.context.trace_id;
}

unfoldable pub is_sampled_in : SamplingDecision → Bool
is_sampled_in SamplingDecision.record_and_sample = true
is_sampled_in _ = false

abbrev state_of : TraceState → Option TraceState → TraceState
state_of old none = old
state_of old (some new) = new

-- The span as it is enqueued, and the sink.
unfoldable pub sampled :
    SpanRecord
    → SamplingResult
    → Option ℕ
    → SpanLimitOptions
    → (ℕ → Bool)
    → Diagnostics
    → SpanRecord × Diagnostics
sampled span sampling resource limits fails diag =
    let (attributes, sink) =
      append_attributes span.attributes sampling.additional_attributes limits fails (some diag) in
    (
      record span {
        attributes = attributes;
        context = record span.context {
          trace_state = state_of span.context.trace_state sampling.trace_state;
          trace_flags = sampled_flag;
        };
        resource = resource;
      },
      sink_of diag sink,
    )

-- What became of a span.
pub data Fate : Type 0 where
  sampled_out accepted dropped : Fate

abbrev fate_of : Bool → Fate
fate_of true = Fate.accepted
fate_of false = Fate.dropped

-- The processor counts in the shared sink.
unfoldable pub hand_over : SpanRecord → InstrumentationScope → Pipeline → Pipeline × Fate
hand_over span scope p = elim p.batch [
  | none ↦ (record p { handed = p.handed ++ (span, scope) ∷ [] }, Fate.accepted)
  | some b ↦
      let (b', queued) = BatchSpan.enqueue (record b { diag = p.diag }) span scope in
      (record p { batch = some b'; diag = b'.diag }, fate_of queued)
]

-- What a span meets on its way, and does not change.
pub record Route : Type 0 where
  pub sampler : Sampler
  pub span_limits : SpanLimitOptions
  pub append_fails : SpanRecord → ℕ → Bool
  pub resource : Option ℕ
  pub correction : TimeCorrection

unfoldable pub enqueue_span : Route → SpanRecord → InstrumentationScope → Pipeline → Pipeline × Fate
enqueue_span route span scope p =
    let (cut, diag) = limited span route.correction route.span_limits p.diag in
    let sampling = should_sample route.sampler (context_of cut) in
    let (out, diag') =
      sampled cut sampling route.resource route.span_limits (route.append_fails cut) diag in
    if not (is_sampled_in sampling.decision)
    then (record p { diag = diag }, Fate.sampled_out)
    else hand_over out scope (record p { diag = diag' })

unfoldable pub count_fate : Fate → IngestResult → IngestResult
count_fate Fate.sampled_out result = record result {
  spans_sampled_out = add32 result.spans_sampled_out;
}
count_fate Fate.accepted result = record result { spans_accepted = add32 result.spans_accepted }
count_fate Fate.dropped result = record result { spans_dropped = add32 result.spans_dropped }

unfoldable pub enqueue_spans :
    Route
    → InstrumentationScope
    → List SpanRecord
    → Pipeline
    → IngestResult
    → Pipeline × IngestResult
enqueue_spans route scope [] p result = (p, result)
enqueue_spans route scope (span ∷ spans) p result =
    let (p', fate) = enqueue_span route span scope p in
    enqueue_spans route scope spans p' (count_fate fate result)

-- `EnqueueResourceSpans`.
unfoldable pub enqueue_resource_spans :
    Route → List DecodedScopeSpans → Pipeline → IngestResult → Pipeline × IngestResult
enqueue_resource_spans route [] p result = (p, result)
enqueue_resource_spans route (scope ∷ scopes) p result =
    let (p', result') = enqueue_spans route scope.scope scope.spans p result in
    enqueue_resource_spans route scopes p' result'

-- The counters of one ResourceSpans.
unfoldable pub count_losses : LeafWireInfo → DecodedResourceSpans → Receiver → Receiver
count_losses info rs r =
    let reported = record r {
      counters = record r.counters {
        leaf_reported_drops = fetch_add r.counters.leaf_reported_drops (reported_drops info);
      };
    } in
    count_drop DropReason.span_attribute_limit rs.dropped_span_attributes
      (count_dropped_attributes rs.dropped_resource_attributes reported)

-- How far `Enqueue` got: whether an allocation failed, and whether a sync was not trusted.
pub record Progress : Type 0 where
  pub receiver : Receiver
  pub result : IngestResult
  pub threw : Bool
  pub fell_back : Bool

unfoldable pub enqueue_with :
    Option (Option ℕ)
    → (Option ℕ → Route)
    → List DecodedScopeSpans
    → Bool
    → Receiver
    → IngestResult
    → Progress
enqueue_with none route scopes fell_back r result = record {
  receiver = r;
  result = result;
  threw = true;
  fell_back = fell_back;
}
enqueue_with (some resource) route scopes fell_back r result =
    let (p, counted) = enqueue_resource_spans (route resource) scopes r.pipeline result in
    record {
      receiver = record r { pipeline = p };
      result = counted;
      threw = false;
      fell_back = fell_back;
    }

abbrev pub route_of : Surroundings → TimeCorrection → Receiver → Option ℕ → Route
route_of around correction r resource = record {
  sampler = r.sampler;
  span_limits = r.span_limits;
  append_fails = around.append_fails;
  resource = resource;
  correction = correction;
}

unfoldable pub enqueue_one :
    Surroundings
    → Identified
    → ℤ
    → DecodedResourceSpans
    → LeafTimeMode
    → Receiver
    → IngestResult
    → Progress
enqueue_one around payload received rs mode r result =
    let info = read_wire_info rs.resource in
    let (corrected, c) =
      correction_for around payload received mode info (count_losses info rs r) in
    let (ready, resource) = resource_for around payload rs.resource corrected in
    enqueue_with resource (route_of around c.correction r) rs.scopes c.fell_back ready result

-- The loop of `Enqueue`, over the ResourceSpans and their modes.
unfoldable pub enqueue_all :
    Surroundings
    → Identified
    → ℤ
    → List DecodedResourceSpans
    → List LeafTimeMode
    → Bool
    → Receiver
    → IngestResult
    → Progress
enqueue_all around payload received (rs ∷ rss) (mode ∷ modes) fell_back r result =
    let one = enqueue_one around payload received rs mode r result in
    let back = if one.fell_back then true else fell_back in
    let rest = enqueue_all around payload received rss modes back one.receiver one.result in
    if one.threw then record one { fell_back = back } else rest
enqueue_all around payload received _ _ fell_back r result = record {
  receiver = r;
  result = result;
  threw = false;
  fell_back = fell_back;
}

unfoldable pub count_fallback : Progress → Progress
count_fallback p =
    if not p.threw
    then if p.fell_back
      then record p {
        receiver = record p.receiver {
          counters = record p.receiver.counters {
            time_fallbacks = fetch_add p.receiver.counters.time_fallbacks 1;
          };
        };
      }
      else p
    else p
