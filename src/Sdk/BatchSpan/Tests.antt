-- ===== src/Sdk/BatchSpan/Tests.antt =====
-- A small processor under DropOldest, and the theorems at it.
use microtel.Prelude.{ℕ, ◌+◌, ◌≡◌, refl, false, [], ◌∷◌, none, some, length, arith}
use microtel.Prelude.Int.{pos}
use microtel.Api.Trace.{SpanContext}
use microtel.Sdk.Diagnostics.{initial as no_drops}
use microtel.Sdk.Record.{SpanRecord, SpanKind, StatusCode, InstrumentationScope}
use microtel.Sdk.BatchSpan.{
  DropPolicy, QueuedSpan, Processor, enqueue, wait_and_collect, force_flush, finish_round,
}
use microtel.Sdk.BatchSpan.Queue.{IsConsistent, enqueue-IsConsistent}
use microtel.Sdk.BatchSpan.Queue.Outcome.{Outcome, enqueue-Outcome}
use microtel.Sdk.BatchSpan.Flush.{
  World, initial, mark, IsPending, here, next, flushes, collects, finishes, Reach-flushed,
}
use microtel.Sdk.BatchSpan.Grouping.{export_batch}
use microtel.Sdk.BatchSpan.Grouping.Sorted.{records_for, selected, export_batch-selected}

abbrev context : SpanContext
context = record {
  trace_id = [];
  span_id = [];
  trace_flags = 0;
  trace_state = none;
  remote = false;
}

abbrev span : ℕ → SpanRecord
span n = record {
  context = context;
  parent_context = context;
  name = n ∷ [];
  kind = SpanKind.internal;
  status_code = StatusCode.unset;
  status_description = [];
  start_time = pos 0;
  end_time = pos 1;
  attributes = [];
  events = [];
  links = [];
  resource = none;
}

abbrev scope : InstrumentationScope
scope = record { name = 97 ∷ []; version = [] }

abbrev queued : ℕ → QueuedSpan
queued n = record { span = span n; scope = scope; bytes = 65 }

abbrev full : Processor
full = record {
  opts = record {
    max_queue_size = 2;
    max_export_batch_size = 2;
    schedule_delay = 5000;
    drop_policy = DropPolicy.drop_oldest;
  };
  max_record_bytes = 1000;
  max_total_queue_bytes = 4000;
  diag = no_drops;
  queue = queued 1 ∷ queued 2 ∷ [];
  queue_bytes = 130;
  shutdown = false;
  flush_seq = 0;
  flush_done_seq = 0;
}

full-IsConsistent : IsConsistent full
full-IsConsistent = record {
  counted = refl;
  within = omega arith;
  total_fits = omega arith;
  record_fits = omega arith;
}

enqueue-IsConsistent_example : IsConsistent (enqueue full (span 3) scope).0
enqueue-IsConsistent_example =
    enqueue-IsConsistent full (span 3) scope full-IsConsistent (omega arith)

enqueue-Outcome_example : Outcome full (span 3) scope (enqueue full (span 3) scope)
enqueue-Outcome_example = enqueue-Outcome full (span 3) scope full-IsConsistent (omega arith)

-- A flush is called, the worker collects both records, exports them and finishes the round.
abbrev called : World
called = record (initial full) { p = (force_flush full).0; marks = mark (initial full).marks 1 2 }

abbrev holding : World
holding = record called {
  p = (wait_and_collect called.p).0;
  held = some (wait_and_collect called.p).1;
  popped = 0 + length (wait_and_collect called.p).1.batch;
  held_from = 0;
}

abbrev finished : World
finished = record holding { p = finish_round (wait_and_collect called.p).1 holding.p; held = none }

Reach-flushed_example : ¬ IsPending finished 0
unfolding force_flush wait_and_collect finish_round
Reach-flushed_example =
    Reach-flushed {w = finished} full 1 0 (omega arith)
      (next (next (next here (flushes (initial full))) (collects called refl))
        (finishes holding (wait_and_collect called.p).1 refl))
      refl (omega arith)

export_batch-selected_example :
    records_for
      (record { resource = 7; name = 97 ∷ []; version = [] })
      (export_batch 7 (queued 1 ∷ queued 2 ∷ []))
    ≡ selected 7 (record { resource = 7; name = 97 ∷ []; version = [] }) (queued 1 ∷ queued 2 ∷ [])
export_batch-selected_example =
    (export_batch-selected 7 (queued 1 ∷ queued 2 ∷ [])).0
      (record { resource = 7; name = 97 ∷ []; version = [] })
