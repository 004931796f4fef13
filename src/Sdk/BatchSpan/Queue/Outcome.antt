-- ===== src/Sdk/BatchSpan/Queue/Outcome.antt =====
-- What `Enqueue` did with a record, counted in the diagnostics and in the length of the queue.
use mathlib.Core.List.{append-nil}
use microtel.Prelude.{
  ℕ, ◌+◌, ◌^◌, ◌≤◌, ◌<◌, ◌≡◌, refl, sym, ap, inl, inr, Bool, false, ◌||◌, if◌then◌else◌, ltb, [],
  ◌∷◌, ◌++◌, length, length-append, length-drop, drop, arith, Bool-cases,
}
use microtel.Sdk.Diagnostics.{fetch_add, record_drop}
use microtel.Sdk.Record.{SpanRecord, InstrumentationScope}
use microtel.Sdk.BatchSpan.{
  QueuedSpan, Processor, Room, enqueue_in, enqueue, estimate_record_bytes, is_oldest,
}
use microtel.Sdk.BatchSpan.Queue.{IsConsistent, MadeRoom, enqueue_cases, made}

-- What `Enqueue` does with the queue: it takes `evicted` entries off the front, none of them under
-- `DropNewest`, and puts the record at the back exactly if it answers true; every entry that it
-- takes off, and a record that finds no room, is one more `QueueFull`.
pub record Outcome (p : Processor) (span : SpanRecord) (scope : InstrumentationScope)
    (r : Processor × Bool) : Type 0 where
  pub evicted : ℕ
  pub evicted_le : evicted ≤ length p.queue
  pub newest_stays : is_oldest p.opts.drop_policy ≡ false → evicted ≡ 0
  pub queue_is :
      r.0.queue
      ≡ drop evicted p.queue
        ++ (if r.1
            then record { span = span; scope = scope; bytes = estimate_record_bytes span } ∷ []
            else [])
  pub full_counted :
      r.0.diag.drops 0
      ≡ fetch_add (p.diag.drops 0) (
          evicted
          + (if r.1 || p.shutdown || ltb p.max_record_bytes (estimate_record_bytes span)
              then 0
              else 1))

room-Outcome :
    (p : Processor) (span : SpanRecord) (scope : InstrumentationScope) {r : Room}
    → p.shutdown ≡ false
    → ltb p.max_record_bytes (estimate_record_bytes span) ≡ false
    → MadeRoom p.opts p.max_total_queue_bytes (estimate_record_bytes span) p.queue p.diag r
    → Outcome p span scope (enqueue_in r p span scope (estimate_record_bytes span))
unfolding enqueue_in
room-Outcome p span scope {r} s f m = elim (Bool-cases r.accepts) [
  | inl a ↦ rw a (record {
    evicted = m.evicted;
    evicted_le = m.evicts_le;
    newest_stays = m.newest_stays;
    queue_is = rw m.evicts;
    full_counted = ground (arith, m.counts);
  })
  | inr n ↦ rw n (record {
    evicted = m.evicted;
    evicted_le = m.evicts_le;
    newest_stays = m.newest_stays;
    queue_is = rw append-nil m.evicts;
    full_counted = ground (arith, m.counts);
  })
]

room_length :
    (p : Processor) (span : SpanRecord) (scope : InstrumentationScope) (b : ℕ) {r : Room}
    → MadeRoom p.opts p.max_total_queue_bytes b p.queue p.diag r
    → length p.queue ≤ p.opts.max_queue_size
    → length (enqueue_in r p span scope b).0.queue ≤ p.opts.max_queue_size
unfolding enqueue_in
room_length p span scope b {r} m h = elim (Bool-cases r.accepts) [
  | inl a ↦ rw a (
      omega (
        arith,
        m.room a,
        length-append r.queue (record { span = span; scope = scope; bytes = b } ∷ []),
      ))
  | inr n ↦
      rw n (omega (arith, ap (length {A = QueuedSpan}) m.evicts, length-drop m.evicted p.queue))
]

-- From a consistent queue and a `QueueFull` counter below 2 ^ 64, `Enqueue` takes some entries off
-- the front, none of them under `DropNewest`, puts the record at the back exactly if it answers
-- true, and adds one to `QueueFull` for every entry that it takes off and for a record that finds
-- no room.
pub enqueue-Outcome :
    (p : Processor) (span : SpanRecord) (scope : InstrumentationScope)
    → IsConsistent p
    → p.diag.drops 0 < 2 ^ 64
    → Outcome p span scope (enqueue p span scope)
enqueue-Outcome p span scope v d =
    enqueue_cases (Outcome p span scope) p span scope
      (λ s. record {
        evicted = 0;
        evicted_le = omega arith;
        newest_stays = λ _. refl;
        queue_is = sym (append-nil p.queue);
        full_counted = (unfold record_drop in ground arith);
      })
      (λ s l. record {
        evicted = 0;
        evicted_le = omega arith;
        newest_stays = λ _. refl;
        queue_is = sym (append-nil p.queue);
        full_counted = (unfold record_drop in ground arith);
      })
      (λ s f. room-Outcome p span scope s f (made p span scope v d f))

-- From a consistent processor with at most `max_queue_size` queued records and a `QueueFull` counter
-- below 2 ^ 64, `Enqueue` leaves at most `max_queue_size` queued records.
length-enqueue :
    (p : Processor) (span : SpanRecord) (scope : InstrumentationScope)
    → IsConsistent p
    → p.diag.drops 0 < 2 ^ 64
    → length p.queue ≤ p.opts.max_queue_size
    → length (enqueue p span scope).0.queue ≤ p.opts.max_queue_size
length-enqueue p span scope v d h =
    enqueue_cases (λ r. length r.0.queue ≤ p.opts.max_queue_size) p span scope (λ _. h) (λ _ _. h)
      (λ _ f. room_length p span scope (estimate_record_bytes span) (made p span scope v d f) h)
