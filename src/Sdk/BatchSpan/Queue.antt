-- ===== src/Sdk/BatchSpan/Queue.antt =====
-- The two caps of the queue, and what becomes of each record.
pub mod Outcome
use mathlib.Core.List.{append-nil}
use mathlib.Core.Path.{subst}
use microtel.Prelude.{
  ℕ, suc, ◌+◌, ◌^◌, ◌≤◌, ◌<◌, ◌≡◌, refl, sym, ap, inl, inr, Bool, true, false, ◌||◌, if◌then◌else◌,
  ltb, List, [], ◌∷◌, ◌++◌, length, length-append, length-drop, drop, arith, Bool-cases,
}
use microtel.Sdk.Diagnostics.{Diagnostics, DropReason, fetch_add, record_drop}
use microtel.Sdk.Record.{SpanRecord, InstrumentationScope}
use microtel.Sdk.BatchSpan.{
  BatchOptions, QueuedSpan, Processor, Room, is_full, make_room_for, enqueue_in, enqueue_measured,
  enqueue, estimate_record_bytes, is_oldest, sub64,
}

abbrev pub sum_bytes : List QueuedSpan → ℕ
sum_bytes [] = 0
sum_bytes (q ∷ qs) = q.bytes + sum_bytes qs

-- The running total is the sum of what is queued, within the byte cap; and the caps are such that
-- the arithmetic of a `uint64_t` does not wrap.
pub record IsConsistent (p : Processor) : Type 0 where
  pub counted : p.queue_bytes ≡ sum_bytes p.queue
  pub within : p.queue_bytes ≤ p.max_total_queue_bytes
  pub total_fits : p.max_total_queue_bytes + 2 ^ 32 ≤ 2 ^ 64
  pub record_fits : p.max_record_bytes < 2 ^ 32

-- What holds of the room that was made in the queue `qs`, whose entries are evicted from the front.
record MadeRoom (opts : BatchOptions) (max_total record_bytes : ℕ) (qs : List QueuedSpan)
    (d : Diagnostics) (r : Room) : Type 0 where
  evicted : ℕ
  evicts : r.queue ≡ drop evicted qs
  evicts_le : evicted ≤ length qs
  newest_stays : is_oldest opts.drop_policy ≡ false → evicted ≡ 0
  counts : r.diag.drops 0 ≡ fetch_add (d.drops 0) (evicted + (if r.accepts then 0 else 1))
  sums : r.queue_bytes ≡ sum_bytes r.queue
  shrinks : sum_bytes r.queue ≤ sum_bytes qs
  room :
      r.accepts ≡ true
      → (length r.queue < opts.max_queue_size) × (r.queue_bytes + record_bytes ≤ max_total)

module _ (opts : BatchOptions) (max_total record_bytes : ℕ) (small : record_bytes < 2 ^ 32)
    (fits : max_total + 2 ^ 32 ≤ 2 ^ 64) where
  make_room_for-MadeRoom :
      (qs : List QueuedSpan) (queue_bytes : ℕ) (d : Diagnostics)
      → queue_bytes ≡ sum_bytes qs
      → queue_bytes ≤ max_total
      → d.drops 0 < 2 ^ 64
      → MadeRoom opts max_total record_bytes qs d
          (make_room_for opts max_total record_bytes qs queue_bytes d)
  unfolding make_room_for record_drop
  make_room_for-MadeRoom [] queue_bytes d s w b =
      elim (Bool-cases (is_full opts max_total record_bytes 0 queue_bytes)) [
        | inl full ↦ rw full (record {
          evicted = 0;
          evicts = refl;
          evicts_le = omega arith;
          newest_stays = λ _. refl;
          counts = ground arith;
          sums = s;
          shrinks = omega arith;
          room = λ e. cc;
        })
        | inr free ↦ rw free (record {
          evicted = 0;
          evicts = refl;
          evicts_le = omega arith;
          newest_stays = λ _. refl;
          counts = ground arith;
          sums = s;
          shrinks = omega arith;
          room = λ e. ground arith;
        })
      ]
  make_room_for-MadeRoom (q ∷ qs) queue_bytes d s w b =
      let ih =
        make_room_for-MadeRoom qs (sub64 queue_bytes q.bytes)
          (record_drop DropReason.queue_full 1 d) (omega arith) (omega arith) (omega arith) in
      elim (Bool-cases (is_full opts max_total record_bytes (length (q ∷ qs)) queue_bytes)) [
        | inl full ↦ elim (Bool-cases (is_oldest opts.drop_policy)) [
          | inl oldest ↦
              rw (full, oldest)
                (record {
                  evicted = suc ih.evicted;
                  evicts = ih.evicts;
                  evicts_le = omega (arith, ih.evicts_le);
                  newest_stays = λ e. cc;
                  counts = omega (arith, ih.counts);
                  sums = ih.sums;
                  shrinks = omega (arith, ih.shrinks);
                  room = ih.room;
                })
          | inr newest ↦
              rw (full, newest)
                (record {
                  evicted = 0;
                  evicts = refl;
                  evicts_le = omega arith;
                  newest_stays = λ _. refl;
                  counts = ground arith;
                  sums = s;
                  shrinks = omega arith;
                  room = λ e. cc;
                })
        ]
        | inr free ↦ rw free (record {
          evicted = 0;
          evicts = refl;
          evicts_le = omega arith;
          newest_stays = λ _. refl;
          counts = ground arith;
          sums = s;
          shrinks = omega arith;
          room = λ e. ground arith;
        })
      ]

sum_bytes-concat :
    (qs : List QueuedSpan) (q : QueuedSpan) → sum_bytes (qs ++ q ∷ []) ≡ sum_bytes qs + q.bytes
sum_bytes-concat [] q = omega arith
sum_bytes-concat (x ∷ qs) q = omega (arith, sum_bytes-concat qs q)

abbrev room_of : Processor → ℕ → Room
room_of p b = make_room_for p.opts p.max_total_queue_bytes b p.queue p.queue_bytes p.diag

room_of-MadeRoom :
    (p : Processor) (b : ℕ)
    → IsConsistent p
    → p.diag.drops 0 < 2 ^ 64
    → b ≤ p.max_record_bytes
    → MadeRoom p.opts p.max_total_queue_bytes b p.queue p.diag (room_of p b)
room_of-MadeRoom p b v d h =
    make_room_for-MadeRoom p.opts p.max_total_queue_bytes b (omega (arith, v.record_fits))
      v.total_fits p.queue p.queue_bytes p.diag v.counted v.within d

-- The four ends of `Enqueue`.
enqueue_cases {ℓ} :
    (P : Processor × Bool → Type ℓ) (p : Processor) (span : SpanRecord)
    (scope : InstrumentationScope)
    → (p.shutdown ≡ true
        → P (record p { diag = record_drop DropReason.post_shutdown 1 p.diag }, false))
    → (p.shutdown ≡ false
        → ltb p.max_record_bytes (estimate_record_bytes span) ≡ true
        → P (record p { diag = record_drop DropReason.record_too_large 1 p.diag }, false))
    → (p.shutdown ≡ false
        → ltb p.max_record_bytes (estimate_record_bytes span) ≡ false
        → P (
            enqueue_in
              (room_of p (estimate_record_bytes span))
              p
              span
              scope
              (estimate_record_bytes span)))
    → P (enqueue p span scope)
unfolding enqueue enqueue_measured
enqueue_cases P p span scope shut large room = elim (Bool-cases p.shutdown) [
  | inl s ↦
      subst
        (λ b. P (
          if b
          then (record p { diag = record_drop DropReason.post_shutdown 1 p.diag }, false)
          else rest))
        (sym s) (shut s)
  | inr s ↦
      subst
        (λ b. P (
          if b
          then (record p { diag = record_drop DropReason.post_shutdown 1 p.diag }, false)
          else rest))
        (sym s)
        (elim (Bool-cases (ltb p.max_record_bytes (estimate_record_bytes span))) [
          | inl l ↦ rw l (large s l)
          | inr f ↦ rw f (room s f)
        ])
]
  where
    rest : Processor × Bool
    rest =
        if ltb p.max_record_bytes (estimate_record_bytes span)
        then (record p { diag = record_drop DropReason.record_too_large 1 p.diag }, false)
        else enqueue_in (room_of p (estimate_record_bytes span)) p span scope
            (estimate_record_bytes span)

module _ (p : Processor) (span : SpanRecord) (scope : InstrumentationScope) (v : IsConsistent p)
    (d : p.diag.drops 0 < 2 ^ 64) where
  made :
      ltb p.max_record_bytes (estimate_record_bytes span) ≡ false
      → MadeRoom p.opts p.max_total_queue_bytes
          (estimate_record_bytes span)
          p.queue
          p.diag
          (room_of p (estimate_record_bytes span))
  made f = room_of-MadeRoom p (estimate_record_bytes span) v d (ground arith)

into_room :
    (p : Processor) (span : SpanRecord) (scope : InstrumentationScope) (b : ℕ) {r : Room}
    → MadeRoom p.opts p.max_total_queue_bytes b p.queue p.diag r
    → IsConsistent p
    → b ≤ p.max_record_bytes
    → IsConsistent (enqueue_in r p span scope b).0
unfolding enqueue_in
into_room p span scope b {r} m v h = elim (Bool-cases r.accepts) [
  | inl a ↦ rw a (record {
    counted = omega (
      arith,
      m.room a,
      m.sums,
      v.total_fits,
      sum_bytes-concat r.queue (record { span = span; scope = scope; bytes = b }),
    );
    within = omega (arith, m.room a, v.total_fits);
    total_fits = v.total_fits;
    record_fits = v.record_fits;
  })
  | inr n ↦ rw n (record {
    counted = m.sums;
    within = omega (arith, m.sums, m.shrinks, v.counted, v.within);
    total_fits = v.total_fits;
    record_fits = v.record_fits;
  })
]

-- From a consistent processor whose `QueueFull` counter is below 2 ^ 64, `Enqueue` keeps the byte
-- count exact and within its cap, whether it takes the record, refuses it or evicts others for it.
pub enqueue-IsConsistent :
    (p : Processor) (span : SpanRecord) (scope : InstrumentationScope)
    → IsConsistent p
    → p.diag.drops 0 < 2 ^ 64
    → IsConsistent (enqueue p span scope).0
enqueue-IsConsistent p span scope v d =
    enqueue_cases (λ r. IsConsistent r.0) p span scope
      (λ _. record {
        counted = v.counted;
        within = v.within;
        total_fits = v.total_fits;
        record_fits = v.record_fits;
      })
      (λ _ _. record {
        counted = v.counted;
        within = v.within;
        total_fits = v.total_fits;
        record_fits = v.record_fits;
      })
      (λ _ f.
        into_room p span scope (estimate_record_bytes span) (made p span scope v d f) v
          (ground arith))
