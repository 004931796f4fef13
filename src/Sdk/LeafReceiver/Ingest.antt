-- ===== src/Sdk/LeafReceiver/Ingest.antt =====
-- src/sdk/leaf_receiver.cpp, `Ingest`, the constructor, `MarkShutDown` and `Stats`.
use microtel.Prelude.{ℕ, true, false, if◌then◌else◌, ltb, List, [], ◌∷◌, none, some}
use microtel.Prelude.Bytes.{Bytes, bytes_eq}
use microtel.Prelude.Int.{ℤ, pos}
use microtel.Sdk.Diagnostics.{fetch_add}
use microtel.Sdk.Samplers.{Sampler}
use microtel.Sdk.SpanLimits.{SpanLimitOptions}
use microtel.Sdk.LeafTable.{make_table, size}
use microtel.Sdk.UnknownLeaf.{make_cache}
use microtel.Sdk.LeafReceiver.{
  IngestRequest, IngestStatus, IngestResult, LeafConfig, LeafReceiverOptions, DecodeLimits,
  Decoding, Receiver, Pipeline, Surroundings, Counters, Outcome, Decodeds, admit, plain_result,
}
use microtel.Sdk.LeafReceiver.Identity.{Identified, identify}
use microtel.Sdk.LeafReceiver.Enqueue.{Progress, enqueue_all, count_fallback}
use microtel.Sdk.LeafReceiver.Corrections.{saturating_ns}

-- `insert_or_assign`.
unfoldable pub assign_leaf :
    Bytes → LeafConfig → List (Bytes × LeafConfig) → List (Bytes × LeafConfig)
assign_leaf id config [] = (id, config) ∷ []
assign_leaf id config (l ∷ ls) =
    if bytes_eq l.0 id then (l.0, config) ∷ ls else l ∷ assign_leaf id config ls

unfoldable pub assign_leaves :
    List (Bytes × LeafConfig) → List (Bytes × LeafConfig) → List (Bytes × LeafConfig)
assign_leaves [] known = known
assign_leaves (l ∷ ls) known = assign_leaves ls (assign_leaf l.0 l.1 known)

abbrev unknown_leaf_cache_size : ℕ
unknown_leaf_cache_size = 256

-- 60 seconds.
abbrev unknown_leaf_ttl : ℤ
unknown_leaf_ttl = pos 60000000000

abbrev pub no_counters : Counters
no_counters = record {
  payloads_accepted = 0;
  payloads_rejected = 0;
  leaf_reported_drops = 0;
  payloads_out_of_memory = 0;
  resource_attributes_dropped = 0;
  leaf_id_conflicts = 0;
  time_fallbacks = 0;
  payloads_post_shutdown = 0;
}

unfoldable pub make_receiver :
    LeafReceiverOptions
    → Sampler
    → SpanLimitOptions
    → (Bytes → DecodeLimits → Decoding)
    → Pipeline
    → Receiver
make_receiver options sampler span_limits decoder pipeline = record {
  options = options;
  sampler = sampler;
  span_limits = span_limits;
  decoder = decoder;
  leaves = assign_leaves options.leaves [];
  table = make_table options.max_leaves (saturating_ns options.leaf_idle_timeout);
  unknown = make_cache unknown_leaf_cache_size unknown_leaf_ttl;
  counters = no_counters;
  shut_down = false;
  settings = [];
  resources = [];
  pipeline = pipeline;
}

abbrev pub received_ns : IngestRequest → Surroundings → ℤ
received_ns request around = elim request.received_at [
  | none ↦ around.clock_now
  | some received ↦ received
]

unfoldable pub record_out_of_memory : Receiver → Receiver
record_out_of_memory r = record r {
  counters = record r.counters {
    payloads_out_of_memory = fetch_add r.counters.payloads_out_of_memory 1;
  };
}

unfoldable pub record_accepted : Receiver → Receiver
record_accepted r = record r {
  counters = record r.counters { payloads_accepted = fetch_add r.counters.payloads_accepted 1 };
}

-- The two `catch` clauses of `Ingest`.
unfoldable pub catch : Receiver → IngestResult → Receiver × IngestResult
catch r result = (record_out_of_memory r, record result { status = IngestStatus.out_of_memory })

abbrev pub accepted_status : IngestResult → IngestStatus
accepted_status result =
    if ltb 0 result.spans_dropped then IngestStatus.partially_accepted else IngestStatus.accepted

-- The end of `IngestOrThrow`, once `Enqueue` is over.
unfoldable pub finish : Progress → Receiver × IngestResult
finish p =
    if p.threw
    then catch p.receiver p.result
    else (record_accepted p.receiver, record p.result { status = accepted_status p.result })

abbrev start_result : IngestResult
start_result = plain_result IngestStatus.accepted

unfoldable pub ingest_identified :
    IngestRequest
    → Surroundings
    → Decodeds
    → Receiver × Outcome Identified
    → Receiver × IngestResult
ingest_identified request around p (r, Outcome.throws) = catch r start_result
ingest_identified request around p (r, Outcome.ends result) = (r, result)
ingest_identified request around p (r, Outcome.goes_on payload) =
    let received = received_ns request around in
    finish (count_fallback (enqueue_all around payload received p.0 p.1 false r start_result))

unfoldable pub ingest_admitted :
    IngestRequest → Surroundings → Receiver × Outcome Decodeds → Receiver × IngestResult
ingest_admitted request around (r, Outcome.throws) = catch r start_result
ingest_admitted request around (r, Outcome.ends result) = (r, result)
ingest_admitted request around (r, Outcome.goes_on p) =
    ingest_identified request around p (identify request p around.steady_now r)

unfoldable pub ingest : IngestRequest → Surroundings → Receiver → Receiver × IngestResult
ingest request around r =
    if r.shut_down
    then (
      record r {
        counters = record r.counters {
          payloads_post_shutdown = fetch_add r.counters.payloads_post_shutdown 1;
        };
      },
      plain_result IngestStatus.shut_down,
    )
    else ingest_admitted request around (admit request around.steady_now r)

pub mark_shut_down : Receiver → Receiver
mark_shut_down r = record r { shut_down = true }

pub record LeafReceiverStats : Type 0 where
  pub counters : Counters
  pub leaves_tracked : ℕ
  pub leaves_evicted : ℕ

pub stats : Receiver → LeafReceiverStats
stats r = record {
  counters = r.counters;
  leaves_tracked = size r.table;
  leaves_evicted = r.table.evicted;
}
