-- ===== src/Sdk/Span/Tests.antt =====
-- A span from its constructor to its destructor, and the theorems at it.
use microtel.Prelude.{◌≡◌, refl, true, false, List, [], ◌∷◌, ◌++◌, none, some}
use microtel.Prelude.Int.{pos}
use microtel.Api.Trace.{SpanContext}
use microtel.Sdk.Diagnostics.{initial}
use microtel.Sdk.Record.{AttributeValue, SpanKind, StatusCode}
use microtel.Sdk.SpanLimits.{SpanLimitOptions}
use microtel.Sdk.SpanLimits.Apply.{IsWithinLimits}
use microtel.Sdk.Span.{
  SdkSpan, Call, make_span, calls, call, set_attribute, set_status, end, time_or_now,
}
use microtel.Sdk.Span.Limits.{calls-IsWithinLimits}
use microtel.Sdk.Span.Lifecycle.{is_open, all_open, calls-finished}

abbrev limits : SpanLimitOptions
limits = record {
  attribute_count_limit = 1;
  event_count_limit = 1;
  link_count_limit = 1;
  attribute_value_length_limit = 2;
  event_attribute_count_limit = 1;
  link_attribute_count_limit = 1;
}

abbrev context : SpanContext
context = record {
  trace_id = [];
  span_id = [];
  trace_flags = 0;
  trace_state = none;
  remote = false;
}

abbrev new : SdkSpan
new =
    make_span context context (97 ∷ []) SpanKind.server (pos 5) limits (some initial) (pos 0) false

abbrev work : List Call
work =
    Call.sets (1 ∷ []) (AttributeValue.string (1 ∷ 2 ∷ 3 ∷ [])) false
    ∷ Call.statuses StatusCode.error (4 ∷ []) false
    ∷ Call.statuses StatusCode.error (5 ∷ []) false
    ∷ Call.events (6 ∷ []) [] (pos 0) (pos 7) (λ i. false)
    ∷ []

-- The second Error has replaced the description of the first one.
second_error : (calls work new).span_record.status_description ≡ 5 ∷ []
unfolding calls call set_attribute set_status microtel.Sdk.Span.add_event make_span
second_error = refl

work-all_open : all_open work ≡ true
unfolding all_open is_open
work-all_open = refl

new-ended : new.ended ≡ false
unfolding make_span
new-ended = refl

new-finished : new.finished ≡ []
unfolding make_span
new-finished = refl

calls-IsWithinLimits_example :
    IsWithinLimits limits
      (calls work (
        make_span context context
          (97 ∷ [])
          SpanKind.server
          (pos 5)
          limits
          (some initial)
          (pos 0)
          false)).span_record
calls-IsWithinLimits_example =
    calls-IsWithinLimits work context context (97 ∷ []) SpanKind.server (pos 5) limits
      (some initial) (pos 0) false

calls-finished_example :
    (calls (work ++ Call.ends (pos 9) (pos 10) ∷ work) new).finished
    ≡ record (calls work new).span_record { end_time = time_or_now (pos 9) (pos 10) } ∷ []
calls-finished_example =
    calls-finished work work (pos 9) (pos 10) new new-ended new-finished work-all_open
