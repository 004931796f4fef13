-- ===== src/Sdk/LeafReceiver.antt =====
-- src/sdk/leaf_receiver.cpp: the concentrator's way from a leaf's payload to the span processor. The
-- decoder and the application's resolver are parameters, functions that may report an exception; a
-- shared object is its place in a store that only grows. The diagnostics sink is attached and is the
-- one that the span processor counts in. Log lines are left out.
pub mod Identity
pub mod Corrections
pub mod Enqueue
pub mod Ingest
pub mod Counted
pub mod Outcomes
pub mod Reported
pub mod Spans
pub mod Outgoing
pub mod Kept
pub mod Unlisted
mod Tests
use Prim.Native.Nat.{min}
use microtel.Prelude.{
  ℕ, zero, suc, ◌+◌, ◌*◌, ◌/◌, ◌%◌, ◌^◌, Bool, true, false, ◌||◌, ◌&&◌, ◌==◌, if◌then◌else◌, ltb,
  not, List, [], ◌∷◌, ◌++◌, Option, none, some, length,
}
use microtel.Prelude.Bytes.{Bytes, bytes_eq}
use microtel.Prelude.Int.{ℤ, pos, negsuc, ◌-ℤ◌, ltb_ℤ}
use microtel.Api.Trace.{id_is_valid}
use microtel.Sdk.Diagnostics.{Diagnostics, DropReason, record_drop, fetch_add}
use microtel.Sdk.Record.{AttributeValue, KeyValue, SpanRecord, InstrumentationScope}
use microtel.Sdk.BatchSpan.{Processor}
use microtel.Sdk.Samplers.{Sampler}
use microtel.Sdk.SpanLimits.{SpanLimitOptions}
use microtel.Sdk.LeafTable.{LeafTable}
use microtel.Sdk.UnknownLeaf.{UnknownLeafCache, contains}
use microtel.Sdk.LeafWire.{LeafTimeMode, LeafWireInfo, read_wire_info, check_wire_info}

pub record IngestRequest : Type 0 where
  pub leaf_id : Bytes
  pub payload : Bytes
  pub received_at : Option ℤ

pub data IngestStatus : Type 0 where
  accepted partially_accepted malformed too_large unknown_leaf shut_down disabled : IngestStatus
  out_of_memory : IngestStatus

pub record IngestResult : Type 0 where
  pub status : IngestStatus
  pub spans_accepted : ℕ
  pub spans_sampled_out : ℕ
  pub spans_dropped : ℕ

pub data UnknownLeafPolicy : Type 0 where
  accept reject : UnknownLeafPolicy

pub record LeafConfig : Type 0 where
  pub time_mode : Option LeafTimeMode
  pub resource : List KeyValue

-- What the resolver did: `configures` and `declines` are its two answers, `fails` and `exhausts` an
-- exception, the second one `std::bad_alloc`.
pub data Resolution : Type 0 where
  configures : LeafConfig → Resolution
  declines fails exhausts : Resolution

pub record LeafReceiverOptions : Type 0 where
  pub max_payload_bytes : ℕ
  pub max_spans_per_payload : ℕ
  pub max_leaves : ℕ
  pub max_leaf_resource_bytes : ℕ
  pub max_node_resource_bytes : ℕ
  pub leaf_idle_timeout : ℤ
  pub unknown_leaf : UnknownLeafPolicy
  pub leaf_id_attribute : Bytes
  pub default_time_mode : Option LeafTimeMode
  pub max_sync_age : ℤ
  pub max_clock_skew : ℤ
  pub boot_anchor_window : ℤ
  pub leaf_defaults_resource : List KeyValue
  pub leaves : List (Bytes × LeafConfig)
  pub resolver : Option (Bytes → Resolution)

pub record DecodedScopeSpans : Type 0 where
  pub scope : InstrumentationScope
  pub spans : List SpanRecord

pub record DecodedResourceSpans : Type 0 where
  pub resource : List KeyValue
  pub scopes : List DecodedScopeSpans
  pub dropped_span_attributes : ℕ
  pub dropped_resource_attributes : ℕ

pub record DecodeLimits : Type 0 where
  pub max_spans : ℕ
  pub max_depth : ℕ
  pub max_arena_bytes : ℕ

-- What the decoder did; `exhausts` is `std::bad_alloc` or `std::length_error`.
pub data Decoding : Type 0 where
  decodes : List DecodedResourceSpans → Decoding
  over_limit undecodable exhausts : Decoding

pub record LeafSettings : Type 0 where
  pub configured : Bool
  pub time_mode : Option LeafTimeMode
  pub resource : List KeyValue

pub record Counters : Type 0 where
  pub payloads_accepted : ℕ
  pub payloads_rejected : ℕ
  pub leaf_reported_drops : ℕ
  pub payloads_out_of_memory : ℕ
  pub resource_attributes_dropped : ℕ
  pub leaf_id_conflicts : ℕ
  pub time_fallbacks : ℕ
  pub payloads_post_shutdown : ℕ

-- Where the spans go: the batch processor if there is one, or else what another processor's `OnEnd`
-- was given.
pub record Pipeline : Type 0 where
  pub diag : Diagnostics
  pub batch : Option Processor
  pub handed : List (SpanRecord × InstrumentationScope)

-- `leaves` is `m_leaves`; the objects behind shared pointers are in `settings` and `resources`.
pub record Receiver : Type 0 where
  pub options : LeafReceiverOptions
  pub sampler : Sampler
  pub span_limits : SpanLimitOptions
  pub decoder : Bytes → DecodeLimits → Decoding
  pub leaves : List (Bytes × LeafConfig)
  pub table : LeafTable
  pub unknown : UnknownLeafCache
  pub counters : Counters
  pub shut_down : Bool
  pub settings : List LeafSettings
  pub resources : List (List KeyValue)
  pub pipeline : Pipeline

-- What one call meets outside: the two clocks, the allocation of a Resource for some declared
-- attributes, and that of the i-th attribute the sampler adds to a span.
pub record Surroundings : Type 0 where
  pub clock_now : ℤ
  pub steady_now : ℤ
  pub resource_fails : List KeyValue → Bool
  pub append_fails : SpanRecord → ℕ → Bool

abbrev pub max_leaf_id_bytes : ℕ
max_leaf_id_bytes = 128

abbrev pub decode_max_depth : ℕ
decode_max_depth = 16

abbrev pub arena_factor : ℕ
arena_factor = 16

abbrev pub arena_floor : ℕ
arena_floor = 16 * 1024

abbrev pub is_reject : UnknownLeafPolicy → Bool
is_reject reject = true
is_reject accept = false

abbrev pub is_nil {ℓ} : {A : Type ℓ} → List A → Bool
is_nil [] = true
is_nil (x ∷ xs) = false

abbrev pub is_some : {V : Type 0} → Option V → Bool
is_some none = false
is_some (some v) = true

unfoldable pub find_leaf : Bytes → List (Bytes × LeafConfig) → Option LeafConfig
find_leaf id [] = none
find_leaf id (l ∷ ls) = if bytes_eq l.0 id then some l.1 else find_leaf id ls

abbrev pub plain_result : IngestStatus → IngestResult
plain_result status = record {
  status = status;
  spans_accepted = 0;
  spans_sampled_out = 0;
  spans_dropped = 0;
}

-- `RecordDrop` of the receiver.
unfoldable pub count_drop : DropReason → ℕ → Receiver → Receiver
count_drop reason n r =
    if ltb 0 n
    then record r { pipeline = record r.pipeline { diag = record_drop reason n r.pipeline.diag } }
    else r

unfoldable pub count_rejected : Receiver → Receiver
count_rejected r = record r {
  counters = record r.counters { payloads_rejected = fetch_add r.counters.payloads_rejected 1 };
}

-- `Reject`: the receiver, and the result.
unfoldable pub reject_payload : IngestStatus → DropReason → Receiver → Receiver × IngestResult
reject_payload status reason r = (count_rejected (count_drop reason 1 r), plain_result status)

unfoldable pub span_is_invalid : SpanRecord → Bool
unfolding ◌-ℤ◌
span_is_invalid s =
    not (id_is_valid s.context.trace_id)
    || not (id_is_valid s.context.span_id)
    || ltb_ℤ s.end_time s.start_time

unfoldable pub any_invalid : List SpanRecord → Bool
any_invalid [] = false
any_invalid (s ∷ ss) = span_is_invalid s || any_invalid ss

unfoldable pub spans_valid : List DecodedScopeSpans → Bool
spans_valid [] = true
spans_valid (scope ∷ scopes) = not (any_invalid scope.spans) && spans_valid scopes

abbrev pub non_negative : Option ℤ → ℕ
non_negative (some (pos n)) = n
non_negative _ = 0

unfoldable pub any_spans : List DecodedScopeSpans → Bool
any_spans [] = false
any_spans (scope ∷ scopes) = not (is_nil scope.spans) || any_spans scopes

abbrev pub reported_drops : LeafWireInfo → ℕ
reported_drops info = non_negative info.dropped_spans + non_negative info.dropped_items

unfoldable pub carries_spans_or_drops : List DecodedResourceSpans → Bool
carries_spans_or_drops [] = false
carries_spans_or_drops (rs ∷ rss) =
    ltb 0 (reported_drops (read_wire_info rs.resource))
    || any_spans rs.scopes
    || carries_spans_or_drops rss

-- The loop of `Admit`, which breaks at the first ResourceSpans that is not valid.
unfoldable pub read_modes : List DecodedResourceSpans → List LeafTimeMode
read_modes [] = []
read_modes (rs ∷ rss) =
    let rest = read_modes rss in
    elim (check_wire_info (read_wire_info rs.resource)) [
      | none ↦ []
      | some mode ↦ if not (spans_valid rs.scopes) then [] else mode ∷ rest
    ]

-- With no resolver, no leaf is configured but the static ones.
unfoldable pub ask_cache : Option (Bytes → Resolution) → Bytes → ℤ → Receiver → Receiver × Bool
ask_cache none leaf_id now r = (r, true)
ask_cache (some f) leaf_id now r =
    let (cache, known) = contains leaf_id now r.unknown in (record r { unknown = cache }, known)

unfoldable pub refused_before_decode : IngestRequest → ℤ → Receiver → Receiver × Bool
refused_before_decode request now r =
    if is_nil request.leaf_id
      || not (is_reject r.options.unknown_leaf)
      || is_some (find_leaf request.leaf_id r.leaves)
    then (r, false)
    else ask_cache r.options.resolver request.leaf_id now r

-- How `Admit` and `Identify` may end.
pub data Outcome (A : Type 0) : Type 0 where
  goes_on : A → Outcome A
  ends : IngestResult → Outcome A
  throws : Outcome A

abbrev pub rejects : {A : Type 0} → IngestStatus → DropReason → Receiver → Receiver × Outcome A
rejects status reason r =
    let (r', result) = reject_payload status reason r in (r', Outcome.ends result)

abbrev pub Decodeds : Type 0
Decodeds = List DecodedResourceSpans × List LeafTimeMode

unfoldable pub admit_decoded : Decoding → Receiver → Receiver × Outcome Decodeds
admit_decoded Decoding.exhausts r = (r, Outcome.throws)
admit_decoded Decoding.over_limit r =
    rejects IngestStatus.too_large DropReason.leaf_payload_too_large r
admit_decoded Decoding.undecodable r =
    rejects IngestStatus.malformed DropReason.leaf_payload_malformed r
admit_decoded (Decoding.decodes decoded) r =
    let modes = read_modes decoded in
    if is_nil decoded
      || not (length modes == length decoded)
      || not (carries_spans_or_drops decoded)
    then rejects IngestStatus.malformed DropReason.leaf_payload_malformed r
    else (r, Outcome.goes_on (decoded, modes))

abbrev pub decode_limits : LeafReceiverOptions → DecodeLimits
decode_limits options = record {
  max_spans = options.max_spans_per_payload;
  max_depth = decode_max_depth;
  max_arena_bytes = arena_factor * options.max_payload_bytes + arena_floor;
}

unfoldable pub admit : IngestRequest → ℤ → Receiver → Receiver × Outcome Decodeds
admit request now r =
    if ltb r.options.max_payload_bytes (length request.payload)
    then rejects IngestStatus.too_large DropReason.leaf_payload_too_large r
    else if ltb max_leaf_id_bytes (length request.leaf_id)
    then rejects IngestStatus.malformed DropReason.leaf_payload_malformed r
    else let (asked, refused) = refused_before_decode request now r in
      if refused
      then rejects IngestStatus.unknown_leaf DropReason.leaf_unknown asked
      else admit_decoded (r.decoder request.payload (decode_limits r.options)) asked
