-- ===== src/Sdk/Diagnostics.antt =====
-- src/sdk/diagnostics_counters.cpp and the enumerations of include/microtel/provider.hpp it counts
-- by. The atomic counters are one record: each method is one step on it. A counter is a `uint64_t`,
-- so its wrap-around is written out. The clock reading of a failure is an argument.
pub mod Laws
use microtel.Prelude.{
  ℕ, zero, suc, ◌+◌, ◌%◌, ◌^◌, ◌==◌, if◌then◌else◌, List, [], ◌∷◌, Option, none, some, take,
}
use microtel.Prelude.Bytes.{Bytes}

pub data DropReason : Type 0 where
  queue_full record_too_large span_attribute_limit span_event_limit span_link_limit : DropReason
  event_attribute_limit link_attribute_limit attribute_value_truncated : DropReason
  post_shutdown response_too_large decompression_too_large malformed_response : DropReason
  partial_success_rejection non_retryable_failure retryable_failure_recovered : DropReason
  retry_budget_exhausted transport_busy connect_failure force_flush_timeout : DropReason
  shutdown_timeout cardinality_overflow metric_callback_timeout non_finite_value : DropReason
  log_attribute_limit leaf_payload_malformed leaf_payload_too_large : DropReason
  leaf_unknown : DropReason

-- `static_cast<std::size_t>(reason)`.
abbrev pub to_index : DropReason → ℕ
to_index queue_full = 0
to_index record_too_large = 1
to_index span_attribute_limit = 2
to_index span_event_limit = 3
to_index span_link_limit = 4
to_index event_attribute_limit = 5
to_index link_attribute_limit = 6
to_index attribute_value_truncated = 7
to_index post_shutdown = 8
to_index response_too_large = 9
to_index decompression_too_large = 10
to_index malformed_response = 11
to_index partial_success_rejection = 12
to_index non_retryable_failure = 13
to_index retryable_failure_recovered = 14
to_index retry_budget_exhausted = 15
to_index transport_busy = 16
to_index connect_failure = 17
to_index force_flush_timeout = 18
to_index shutdown_timeout = 19
to_index cardinality_overflow = 20
to_index metric_callback_timeout = 21
to_index non_finite_value = 22
to_index log_attribute_limit = 23
to_index leaf_payload_malformed = 24
to_index leaf_payload_too_large = 25
to_index leaf_unknown = 26

pub data Kind : Type 0 where
  unspecified network protocol resource_exhausted cancelled malformed internal_failure : Kind

pub record Error : Type 0 where
  pub kind : Kind
  pub message : Bytes
  pub os_errno : ℕ

pub data ConnectionState : Type 0 where
  disconnected connecting connected reconnecting : ConnectionState

abbrev pub drop_reason_count : ℕ
drop_reason_count = 27

abbrev max_error_message_length : ℕ
max_error_message_length = 256

-- `drops i` is `m_counters[i]`.
pub record Diagnostics : Type 0 where
  pub drops : ℕ → ℕ
  pub batches_sent : ℕ
  pub batches_failed : ℕ
  pub queue_depth : ℕ
  pub connection_state : ConnectionState
  pub last_error_time : Option ℕ
  pub last_error_message : Bytes

-- `fetch_add` of a `uint64_t`.
abbrev pub fetch_add : ℕ → ℕ → ℕ
fetch_add a n = (a + n) % 2 ^ 64

abbrev pub initial : Diagnostics
initial = record {
  drops = λ i. 0;
  batches_sent = 0;
  batches_failed = 0;
  queue_depth = 0;
  connection_state = disconnected;
  last_error_time = none;
  last_error_message = [];
}

unfoldable pub record_drop : DropReason → ℕ → Diagnostics → Diagnostics
record_drop reason n d = record d {
  drops = λ i. if i == to_index reason then fetch_add (d.drops i) n else d.drops i;
}

unfoldable pub record_batch_sent : Diagnostics → Diagnostics
record_batch_sent d = record d { batches_sent = fetch_add d.batches_sent 1 }

unfoldable pub record_batch_failed : Error → ℕ → Diagnostics → Diagnostics
record_batch_failed e now d = record d {
  batches_failed = fetch_add d.batches_failed 1;
  last_error_time = some now;
  last_error_message = take max_error_message_length e.message;
}

set_queue_depth : ℕ → Diagnostics → Diagnostics
set_queue_depth depth d = record d { queue_depth = depth }

set_connection_state : ConnectionState → Diagnostics → Diagnostics
set_connection_state state d = record d { connection_state = state }

pub record HealthSnapshot : Type 0 where
  pub drop_counters : List ℕ
  pub batches_sent : ℕ
  pub batches_failed : ℕ
  pub queue_depth_now : ℕ
  pub last_error_time : Option ℕ
  pub last_error_message : Bytes
  pub connection_state : ConnectionState

-- `std::ranges::transform` over the counter array, from index `i` on.
counters_from : ℕ → ℕ → (ℕ → ℕ) → List ℕ
counters_from zero i f = []
counters_from (suc n) i f = f i ∷ counters_from n (i + 1) f

pub snapshot : Diagnostics → HealthSnapshot
unfolding counters_from
snapshot d = record {
  drop_counters = counters_from drop_reason_count 0 d.drops;
  batches_sent = d.batches_sent;
  batches_failed = d.batches_failed;
  queue_depth_now = d.queue_depth;
  last_error_time = d.last_error_time;
  last_error_message = d.last_error_message;
  connection_state = d.connection_state;
}
