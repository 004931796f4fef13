-- ===== src/Sdk/SpanLimits/Tests.antt =====
-- Truncation and the limits at small texts and spans.
use microtel.Prelude.{ℕ, ◌≡◌, refl, false, List, [], ◌∷◌, none}
use microtel.Prelude.Int.{pos}
use microtel.Prelude.Bytes.{Bytes, all}
use microtel.Api.Trace.{SpanContext}
use microtel.Sdk.Record.{AttributeValue, KeyValue, SpanRecord, SpanKind, StatusCode}
use microtel.Sdk.SpanLimits.{SpanLimitOptions, is_continuation, utf8_safe_prefix, truncate_text}
use microtel.Sdk.SpanLimits.Utf8.{IsCodePoint, AreCodePoints, joined, whole, truncate_text-whole}

-- `a`, then the euro sign of three bytes, then `b`.
abbrev text : List Bytes
text = (97 ∷ []) ∷ (226 ∷ 130 ∷ 172 ∷ []) ∷ (98 ∷ []) ∷ []

cut_inside : (truncate_text (97 ∷ 226 ∷ 130 ∷ 172 ∷ 98 ∷ []) 3).0 ≡ 97 ∷ []
unfolding truncate_text utf8_safe_prefix is_continuation
cut_inside = refl

text-AreCodePoints : AreCodePoints text
unfolding AreCodePoints IsCodePoint is_continuation all
text-AreCodePoints = ((refl, refl), ((refl, refl), ((refl, refl), tt)))

truncate_text-whole_example : (truncate_text (joined text) 3).0 ≡ joined (whole text 3)
truncate_text-whole_example = truncate_text-whole text 3 text-AreCodePoints

abbrev limits : SpanLimitOptions
limits = record {
  attribute_count_limit = 1;
  event_count_limit = 1;
  link_count_limit = 1;
  attribute_value_length_limit = 2;
  event_attribute_count_limit = 1;
  link_attribute_count_limit = 1;
}

abbrev context : SpanContext
context = record {
  trace_id = [];
  span_id = [];
  trace_flags = 0;
  trace_state = none;
  remote = false;
}

abbrev named : ℕ → KeyValue
named k = record { key = k ∷ []; value = AttributeValue.string (97 ∷ 98 ∷ 99 ∷ []) }

abbrev span : SpanRecord
span = record {
  context = context;
  parent_context = context;
  name = [];
  kind = SpanKind.internal;
  status_code = StatusCode.unset;
  status_description = [];
  start_time = pos 0;
  end_time = pos 1;
  attributes = named 1 ∷ named 2 ∷ [];
  events = [];
  links = [];
  resource = none;
}
