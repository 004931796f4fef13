-- ===== src/Sdk/BatchSpan/Each.antt =====
-- src/sdk/batch_span_processor.cpp, `Enqueue`: a predicate on every record of the queue.
use microtel.Prelude.{
  ℕ, Bool, true, false, inl, inr, if◌then◌else◌, ltb, List, [], ◌∷◌, ◌++◌, length, Bool-cases,
}
use microtel.Sdk.Diagnostics.{Diagnostics, DropReason, record_drop}
use microtel.Sdk.Record.{SpanRecord, InstrumentationScope}
use microtel.Sdk.BatchSpan.{
  BatchOptions, QueuedSpan, Processor, Room, is_full, is_oldest, make_room_for, enqueue_in,
  enqueue_measured, enqueue, estimate_record_bytes, sub64,
}

module _ (P : SpanRecord → Type 0) where
  unfoldable pub EachQueued : List QueuedSpan → Type 0
  EachQueued [] = Unit
  EachQueued (q ∷ qs) = P q.span × EachQueued qs

  append-EachQueued :
      (qs : List QueuedSpan) (q : QueuedSpan) → EachQueued qs → P q.span → EachQueued (qs ++ q ∷ [])
  unfolding EachQueued
  append-EachQueued [] q h k = (k, tt)
  append-EachQueued (p ∷ qs) q h k = (h.0, append-EachQueued qs q h.1 k)

  make_room_for-EachQueued :
      (opts : BatchOptions) (max_total record_bytes : ℕ) (qs : List QueuedSpan) (queue_bytes : ℕ)
      (diag : Diagnostics)
      → EachQueued qs
      → EachQueued (make_room_for opts max_total record_bytes qs queue_bytes diag).queue
  unfolding make_room_for EachQueued
  make_room_for-EachQueued opts max_total record_bytes [] queue_bytes diag h =
      elim (Bool-cases (is_full opts max_total record_bytes 0 queue_bytes)) [
        | inl e ↦ rw e tt
        | inr e ↦ rw e tt
      ]
  make_room_for-EachQueued opts max_total record_bytes (q ∷ qs) queue_bytes diag h =
      let evicted =
        make_room_for-EachQueued opts max_total record_bytes qs (sub64 queue_bytes q.bytes)
          (record_drop DropReason.queue_full 1 diag) h.1 in
      elim (Bool-cases (is_full opts max_total record_bytes (length (q ∷ qs)) queue_bytes)) [
        | inl e ↦ elim (Bool-cases (is_oldest opts.drop_policy)) [
          | inl o ↦ rw (e, o) evicted
          | inr o ↦ rw (e, o) h
        ]
        | inr e ↦ rw e h
      ]

  abbrev Ends : Processor × Bool → Type 0
  Ends r = EachQueued r.0.queue

  if_each : (b : Bool) (x y : Processor × Bool) → Ends x → Ends y → Ends (if b then x else y)
  if_each true x y p q = p
  if_each false x y p q = q

  enqueue_in-EachQueued :
      (room : Room) (p : Processor) (span : SpanRecord) (scope : InstrumentationScope) (n : ℕ)
      → EachQueued room.queue
      → P span
      → Ends (enqueue_in room p span scope n)
  unfolding enqueue_in
  enqueue_in-EachQueued room p span scope n h k = elim (Bool-cases room.accepts) [
    | inl a ↦
        rw a (append-EachQueued room.queue (record { span = span; scope = scope; bytes = n }) h k)
    | inr a ↦ rw a h
  ]

  -- A property of every queued record and of the new one holds of every record queued after the
  -- call.
  pub enqueue-EachQueued :
      (p : Processor) (span : SpanRecord) (scope : InstrumentationScope)
      → EachQueued p.queue
      → P span
      → Ends (enqueue p span scope)
  unfolding enqueue enqueue_measured
  enqueue-EachQueued p span scope h k =
      let n = estimate_record_bytes span in
      let room = make_room_for p.opts p.max_total_queue_bytes n p.queue p.queue_bytes p.diag in
      let late : Processor = record p { diag = record_drop DropReason.post_shutdown 1 p.diag } in
      let large : Processor = record p {
        diag = record_drop DropReason.record_too_large 1 p.diag;
      } in
      let roomed =
        make_room_for-EachQueued p.opts p.max_total_queue_bytes n p.queue p.queue_bytes p.diag h in
      let last = enqueue_in room p span scope n in
      if_each p.shutdown (late, false) (if ltb p.max_record_bytes n then (large, false) else last) h
        (if_each (ltb p.max_record_bytes n) (large, false) last h
          (enqueue_in-EachQueued room p span scope n roomed k))
