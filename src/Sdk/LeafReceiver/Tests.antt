-- ===== src/Sdk/LeafReceiver/Tests.antt =====
-- A receiver with a small decoder, and the theorems at it.
use microtel.Prelude.{ℕ, ◌<◌, ◌^◌, ◌≡◌, refl, true, false, List, [], ◌∷◌, none, some, arith}
use microtel.Prelude.Int.{pos}
use microtel.Prelude.Bytes.{codes}
use microtel.Api.Trace.{SpanContext}
use microtel.Sdk.Diagnostics.{initial}
use microtel.Sdk.Record.{AttributeValue, SpanRecord, SpanKind, StatusCode}
use microtel.Sdk.Samplers.{Sampler}
use microtel.Sdk.SpanLimits.{SpanLimitOptions}
use microtel.Sdk.LeafTable.Listed.{IsSameListing}
use microtel.Sdk.LeafWire.{LeafTimeMode}
use microtel.Sdk.LeafReceiver.{
  IngestRequest, IngestStatus, IngestResult, UnknownLeafPolicy, LeafReceiverOptions,
  DecodedResourceSpans, Decoding, Receiver, Surroundings, admit, refused_before_decode, ask_cache,
  find_leaf, reject_payload, plain_result,
}
use microtel.Sdk.LeafReceiver.Ingest.{make_receiver, assign_leaves, ingest, ingest_admitted}
use microtel.Sdk.LeafReceiver.Counted.{is_refusal, reason_of, with_drop}
use microtel.Sdk.LeafReceiver.Outcomes.{IsCountedOnce, ingest-IsCountedOnce, ingest_refused}
use microtel.Sdk.LeafReceiver.Spans.{IsAccounted, ingest-IsAccounted}
use microtel.Sdk.LeafReceiver.Reported.{scopes_length, decoded_length}
use microtel.Sdk.LeafReceiver.Kept.{Holds, ingest-Holds}
use microtel.Sdk.LeafReceiver.Outgoing.{EachHanded}
use microtel.Sdk.LeafReceiver.Unlisted.{is_unknown, ingest_unlisted}

abbrev context : SpanContext
context = record {
  trace_id = 1 ∷ [];
  span_id = 2 ∷ [];
  trace_flags = 0;
  trace_state = none;
  remote = false;
}

abbrev span : ℕ → SpanRecord
span n = record {
  context = context;
  parent_context = context;
  name = n ∷ [];
  kind = SpanKind.internal;
  status_code = StatusCode.unset;
  status_description = [];
  start_time = pos 1;
  end_time = pos 2;
  attributes = record { key = codes "k"; value = AttributeValue.string (codes "long") } ∷ [];
  events = [];
  links = [];
  resource = none;
}

abbrev two_spans : List DecodedResourceSpans
two_spans =
    record {
      resource = record { key = codes "os"; value = AttributeValue.string (codes "rtos") } ∷ [];
      scopes =
          record { scope = record { name = []; version = [] }; spans = span 1 ∷ span 2 ∷ [] } ∷ [];
      dropped_span_attributes = 0;
      dropped_resource_attributes = 0;
    }
    ∷ []

abbrev limits : SpanLimitOptions
limits = record {
  attribute_count_limit = 1;
  event_count_limit = 1;
  link_count_limit = 1;
  attribute_value_length_limit = 2;
  event_attribute_count_limit = 1;
  link_attribute_count_limit = 1;
}

abbrev options : UnknownLeafPolicy → LeafReceiverOptions
options policy = record {
  max_payload_bytes = 100;
  max_spans_per_payload = 10;
  max_leaves = 4;
  max_leaf_resource_bytes = 100;
  max_node_resource_bytes = 100;
  leaf_idle_timeout = pos 60;
  unknown_leaf = policy;
  leaf_id_attribute = codes "device.id";
  default_time_mode = some LeafTimeMode.unix;
  max_sync_age = pos 60;
  max_clock_skew = pos 60;
  boot_anchor_window = pos 60;
  leaf_defaults_resource = [];
  leaves = [];
  resolver = none;
}

abbrev receiver : UnknownLeafPolicy → Receiver
receiver policy =
    make_receiver (options policy) Sampler.always_on limits
      (λ payload limits. Decoding.decodes two_spans)
      (record { diag = initial; batch = none; handed = [] })

abbrev request : IngestRequest
request = record { leaf_id = codes "a"; payload = 7 ∷ []; received_at = none }

abbrev around : Surroundings
around = record {
  clock_now = pos 1000;
  steady_now = pos 5;
  resource_fails = λ declared. false;
  append_fails = λ span i. false;
}

abbrev first : Receiver
first = receiver UnknownLeafPolicy.accept

ingest-IsCountedOnce_example : IsCountedOnce first (ingest request around first)
ingest-IsCountedOnce_example = ingest-IsCountedOnce request around first

abbrev strict : Receiver
strict = receiver UnknownLeafPolicy.reject

abbrev refused : Receiver × IngestResult
refused = ingest request around strict

-- With no resolver the leaf is refused by its id alone, and counted.
refused_unknown : refused.1.status ≡ IngestStatus.unknown_leaf
unfolding ingest ingest_admitted admit refused_before_decode ask_cache find_leaf reject_payload
    make_receiver assign_leaves
refused_unknown = refl

is_refused : is_refusal refused.1.status ≡ true
is_refused = rw refused_unknown refl

is_from_unknown : is_unknown refused.1.status ≡ true
is_from_unknown = rw refused_unknown refl

ingest_refused_example :
    (refused.1 ≡ plain_result refused.1.status)
    × (refused.0.pipeline ≡ with_drop (reason_of refused.1.status) strict.pipeline)
ingest_refused_example = ingest_refused request around strict is_refused

ingest_unlisted_example : IsSameListing strict.table refused.0.table
ingest_unlisted_example = ingest_unlisted request around strict is_from_unknown

two_spans_few : decoded_length two_spans < 2 ^ 32
unfolding decoded_length scopes_length
two_spans_few = omega arith

ingest-IsAccounted_example : IsAccounted (decoded_length two_spans) (ingest request around first)
unfolding make_receiver
ingest-IsAccounted_example = ingest-IsAccounted request around first two_spans refl two_spans_few

first-Holds : Holds limits first
unfolding make_receiver EachHanded
first-Holds = (refl, (tt, tt))

ingest-Holds_example : Holds limits (ingest request around first).0
ingest-Holds_example = ingest-Holds limits around request first first-Holds
