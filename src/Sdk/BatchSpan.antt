-- ===== src/Sdk/BatchSpan.antt =====
-- src/sdk/batch_span_processor.cpp: the bounded queue between the tracer threads and the export
-- worker. Each method that takes `m_mu` is one step on a `Processor`; the diagnostics sink is
-- attached. `m_queue_bytes` is a `uint64_t`, so its wrap-around is written out.
pub mod Queue
pub mod Collect
pub mod Flush
pub mod Grouping
pub mod Each
mod Tests
use microtel.Prelude.{
  ℕ, zero, suc, ◌+◌, ◌-◌, ◌*◌, ◌%◌, ◌^◌, ◌≤◌, Bool, true, false, ◌&&◌, ◌||◌, ◌==◌, if◌then◌else◌,
  not, ltb, leb, List, [], ◌∷◌, ◌++◌, Option, none, some, length, take, drop,
}
use Prim.Native.Nat.{min}
use microtel.Prelude.Bytes.{Bytes}
use microtel.Sdk.Diagnostics.{Diagnostics, DropReason, record_drop}
use microtel.Sdk.Record.{
  AttributeValue, KeyValue, SpanEvent, SpanLink, SpanRecord, InstrumentationScope,
}

total_length : List Bytes → ℕ
total_length [] = 0
total_length (s ∷ ss) = length s + total_length ss

value_bytes : AttributeValue → ℕ
value_bytes (AttributeValue.string s) = length s
value_bytes (AttributeValue.strings ss) = total_length ss
value_bytes (AttributeValue.booleans bs) = length bs
value_bytes (AttributeValue.int64s is) = length is * 8
value_bytes (AttributeValue.doubles ds) = length ds * 8
value_bytes (AttributeValue.boolean b) = 8
value_bytes (AttributeValue.int64 i) = 8
value_bytes (AttributeValue.double d) = 8

attributes_bytes : List KeyValue → ℕ
attributes_bytes [] = 0
attributes_bytes (kv ∷ kvs) = length kv.key + value_bytes kv.value + attributes_bytes kvs

events_bytes : List SpanEvent → ℕ
events_bytes [] = 0
events_bytes (e ∷ es) = 16 + length e.name + attributes_bytes e.attributes + events_bytes es

links_bytes : List SpanLink → ℕ
links_bytes [] = 0
links_bytes (l ∷ ls) = 32 + attributes_bytes l.attributes + links_bytes ls

pub estimate_record_bytes : SpanRecord → ℕ
unfolding total_length value_bytes attributes_bytes events_bytes links_bytes
estimate_record_bytes record' =
    64
    + length record'.name
    + length record'.status_description
    + attributes_bytes record'.attributes
    + events_bytes record'.events
    + links_bytes record'.links

pub data DropPolicy : Type 0 where
  drop_newest drop_oldest : DropPolicy

pub record BatchOptions : Type 0 where
  pub max_queue_size : ℕ
  pub max_export_batch_size : ℕ
  pub schedule_delay : ℕ
  pub drop_policy : DropPolicy

pub record QueuedSpan : Type 0 where
  pub span : SpanRecord
  pub scope : InstrumentationScope
  pub bytes : ℕ

pub record Processor : Type 0 where
  pub opts : BatchOptions
  pub max_record_bytes : ℕ
  pub max_total_queue_bytes : ℕ
  pub diag : Diagnostics
  pub queue : List QueuedSpan
  pub queue_bytes : ℕ
  pub shutdown : Bool
  pub flush_seq : ℕ
  pub flush_done_seq : ℕ

abbrev add64 : ℕ → ℕ → ℕ
add64 a b = (a + b) % 2 ^ 64

abbrev sub64 : ℕ → ℕ → ℕ
sub64 a b = (a + 2 ^ 64 - b) % 2 ^ 64

-- What `MakeRoomFor` leaves: its answer, the queue and its bytes, and the drops it counted.
pub record Room : Type 0 where
  pub accepts : Bool
  pub queue : List QueuedSpan
  pub queue_bytes : ℕ
  pub diag : Diagnostics

abbrev is_oldest : DropPolicy → Bool
is_oldest DropPolicy.drop_newest = false
is_oldest DropPolicy.drop_oldest = true

-- The condition of the `while`.
abbrev pub is_full : BatchOptions → ℕ → ℕ → ℕ → ℕ → Bool
is_full opts max_total record_bytes size queue_bytes =
    leb opts.max_queue_size size || ltb max_total (add64 queue_bytes record_bytes)

-- The loop takes one entry off the queue in each round, so it ends with the queue.
make_room_for : BatchOptions → ℕ → ℕ → List QueuedSpan → ℕ → Diagnostics → Room
make_room_for opts max_total record_bytes [] queue_bytes diag =
    if is_full opts max_total record_bytes 0 queue_bytes
    then record {
      accepts = false;
      queue = [];
      queue_bytes = queue_bytes;
      diag = record_drop DropReason.queue_full 1 diag;
    }
    else record { accepts = true; queue = []; queue_bytes = queue_bytes; diag = diag }
make_room_for opts max_total record_bytes (q ∷ qs) queue_bytes diag =
    let evicted =
      make_room_for opts max_total record_bytes qs (sub64 queue_bytes q.bytes)
        (record_drop DropReason.queue_full 1 diag) in
    if is_full opts max_total record_bytes (length (q ∷ qs)) queue_bytes
    then if is_oldest opts.drop_policy then evicted else record {
      accepts = false;
      queue = q ∷ qs;
      queue_bytes = queue_bytes;
      diag = record_drop DropReason.queue_full 1 diag;
    }
    else record { accepts = true; queue = q ∷ qs; queue_bytes = queue_bytes; diag = diag }

-- `Enqueue` behind `MakeRoomFor`, and once the record is measured.
enqueue_in : Room → Processor → SpanRecord → InstrumentationScope → ℕ → Processor × Bool
enqueue_in room p span scope record_bytes =
    if not room.accepts
    then (record p { queue = room.queue; queue_bytes = room.queue_bytes; diag = room.diag }, false)
    else (
      record p {
        queue = room.queue ++ record { span = span; scope = scope; bytes = record_bytes } ∷ [];
        queue_bytes = add64 room.queue_bytes record_bytes;
        diag = room.diag;
      },
      true,
    )

enqueue_measured : Processor → SpanRecord → InstrumentationScope → ℕ → Processor × Bool
enqueue_measured p span scope record_bytes =
    if p.shutdown
    then (record p { diag = record_drop DropReason.post_shutdown 1 p.diag }, false)
    else if ltb p.max_record_bytes record_bytes
    then (record p { diag = record_drop DropReason.record_too_large 1 p.diag }, false)
    else enqueue_in
        (make_room_for p.opts p.max_total_queue_bytes record_bytes p.queue p.queue_bytes p.diag) p
        span scope record_bytes

pub enqueue : Processor → SpanRecord → InstrumentationScope → Processor × Bool
enqueue p span scope = enqueue_measured p span scope (estimate_record_bytes span)

pub on_end : Processor → SpanRecord → InstrumentationScope → Processor
on_end p span scope = (enqueue p span scope).0

pub set_options : BatchOptions → Processor → Processor
set_options opts p = record p { opts = opts }

pub data Status : Type 0 where
  completed timed_out already_shut_down : Status

-- The part of `ForceFlush` before its wait: `some target` is the sequence it then waits for.
pub force_flush : Processor → Processor × Option ℕ
force_flush p =
    if p.shutdown
    then (p, none)
    else (record p { flush_seq = p.flush_seq + 1 }, some (p.flush_seq + 1))

-- The wait's predicate.
abbrev pub flush_is_done : Processor → ℕ → Bool
flush_is_done p target = leb target p.flush_done_seq

-- The part of `Shutdown` under the lock: whether it goes on to join the worker.
pub begin_shutdown : Processor → Processor × Bool
begin_shutdown p = if p.shutdown then (p, false) else (record p { shutdown = true }, true)

pub record WakeResult : Type 0 where
  pub batch : List QueuedSpan
  pub done : Bool
  pub pending_flush_seq : ℕ

-- `m_queue_bytes` after the first `count` entries have gone.
bytes_after : ℕ → List QueuedSpan → ℕ → ℕ
bytes_after zero qs queue_bytes = queue_bytes
bytes_after (suc count) [] queue_bytes = queue_bytes
bytes_after (suc count) (q ∷ qs) queue_bytes = bytes_after count qs (sub64 queue_bytes q.bytes)

abbrev is_nil {ℓ} : {A : Type ℓ} → List A → Bool
is_nil [] = true
is_nil (x ∷ xs) = false

-- `WaitAndCollect` behind its wait, whichever way that ended.
pub wait_and_collect : Processor → Processor × WakeResult
wait_and_collect p =
    let count = min (length p.queue) p.opts.max_export_batch_size in
    let rest = drop count p.queue in
    (
      record p { queue = rest; queue_bytes = bytes_after count p.queue p.queue_bytes },
      record {
        batch = take count p.queue;
        done = p.shutdown && is_nil rest;
        pending_flush_seq =
            if ltb p.flush_done_seq p.flush_seq && is_nil rest then p.flush_seq else 0;
      },
    )

-- The second half of a round of `WorkerLoop`, once the batch is exported.
pub finish_round : WakeResult → Processor → Processor
finish_round w p =
    if ltb 0 w.pending_flush_seq then record p { flush_done_seq = w.pending_flush_seq } else p
