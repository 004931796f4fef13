-- ===== src/Sdk/BatchSpan/Flush.antt =====
-- Tracer threads and the worker, interleaved: what a completed `ForceFlush` has seen to.
use Prim.Native.Nat.{min}
use microtel.Prelude.{
  ℕ, ◌+◌, ◌-◌, ◌≤◌, ◌<◌, ◌≡◌, refl, ap, ◌⊎◌, inl, inr, Bool, true, ◌==◌, if◌then◌else◌, List, [],
  ◌∷◌, Option, none, some, length, length-drop, length-take, drop, arith,
}
use microtel.Sdk.Record.{SpanRecord, InstrumentationScope}
use microtel.Sdk.BatchSpan.{
  BatchOptions, Processor, enqueue, set_options, force_flush, flush_is_done, begin_shutdown,
  enqueue_measured, enqueue_in, wait_and_collect, finish_round, WakeResult, is_nil,
}

-- The processor and what its worker holds, between its two critical sections. The accepted records
-- are numbered from 0 in order of acceptance; the rest only records history: `popped` of them have
-- left the queue, the worker's batch begins with number `held_from`, and `marks k` were accepted
-- when the `ForceFlush` with sequence `k` was called.
pub record World : Type 0 where
  pub p : Processor
  pub held : Option WakeResult
  pub popped : ℕ
  pub held_from : ℕ
  pub marks : ℕ → ℕ

abbrev pub accepted : World → ℕ
accepted w = w.popped + length w.p.queue

abbrev pub mark : (ℕ → ℕ) → ℕ → ℕ → ℕ → ℕ
mark m k n j = if j == k then n else m j

-- How many entries `Enqueue` took off the front, by the length before and after it.
abbrev pub taken_off : Processor → Processor × Bool → ℕ
taken_off p r = length p.queue + (if r.1 then 1 else 0) - length r.0.queue

-- One critical section.
pub data Step : World → World → Type 0 where
  enqueues :
      (w : World) (span : SpanRecord) (scope : InstrumentationScope)
      → Step w (record w {
        p = (enqueue w.p span scope).0;
        popped = w.popped + taken_off w.p (enqueue w.p span scope);
      })
  sets_options : (w : World) (opts : BatchOptions) → Step w (record w { p = set_options opts w.p })
  flushes :
      (w : World)
      → Step w (record w {
        p = (force_flush w.p).0;
        marks = mark w.marks (w.p.flush_seq + 1) (accepted w);
      })
  shuts_down : (w : World) → Step w (record w { p = (begin_shutdown w.p).0 })
  collects :
      (w : World)
      → w.held ≡ none
      → Step w (record w {
        p = (wait_and_collect w.p).0;
        held = some (wait_and_collect w.p).1;
        popped = w.popped + length (wait_and_collect w.p).1.batch;
        held_from = w.popped;
      })
  finishes :
      (w : World) (r : WakeResult)
      → w.held ≡ some r
      → Step w (record w { p = finish_round r w.p; held = none })

-- Record number `i` waits in the queue, or is in the worker's hands.
abbrev pub IsPending : World → ℕ → Type 0
IsPending w i =
    ((w.popped ≤ i) × (i < accepted w))
    ⊎ ((r : WakeResult) × (w.held ≡ some r)
        × (w.held_from ≤ i)
        × (i < w.held_from + length r.batch))

record IsOrdered (w : World) : Type 0 where
  marks_le : (k : ℕ) → k ≤ w.p.flush_seq → w.marks k ≤ accepted w
  done_le : w.p.flush_done_seq ≤ w.p.flush_seq
  done_popped : (k : ℕ) → k ≤ w.p.flush_done_seq → w.marks k ≤ w.popped
  done_held :
      (r : WakeResult)
      → w.held ≡ some r
      → (k : ℕ) → k ≤ w.p.flush_done_seq
      → w.marks k ≤ w.held_from
  pending_popped :
      (r : WakeResult)
      → w.held ≡ some r
      → (k : ℕ) → k ≤ r.pending_flush_seq
      → 0 < r.pending_flush_seq
      → w.marks k ≤ w.popped
  pending_le : (r : WakeResult) → w.held ≡ some r → r.pending_flush_seq ≤ w.p.flush_seq

-- `Enqueue` moves only the queue's ends.
enqueue_ends :
    (p : Processor) (span : SpanRecord) (scope : InstrumentationScope)
    → ((enqueue p span scope).0.flush_seq ≡ p.flush_seq)
      × ((enqueue p span scope).0.flush_done_seq ≡ p.flush_done_seq)
unfolding enqueue enqueue_measured enqueue_in
enqueue_ends p span scope = ground arith

flush_keeps :
    (w : World)
    → IsOrdered w
    → IsOrdered (record w {
      p = (force_flush w.p).0;
      marks = mark w.marks (w.p.flush_seq + 1) (accepted w);
    })
unfolding force_flush
flush_keeps w o = record {
  marks_le = λ k h. ground (arith, o.marks_le k);
  done_le = ground (arith, o.done_le);
  done_popped = λ k h. ground (arith, o.done_le, o.done_popped k);
  done_held = λ r e k h. ground (arith, o.done_le, o.done_held r e k);
  pending_popped = λ r e k h z. ground (arith, o.pending_le r e, o.pending_popped r e k);
  pending_le = λ r e. ground (arith, o.pending_le r e);
}

shutdown_keeps : (w : World) → IsOrdered w → IsOrdered (record w { p = (begin_shutdown w.p).0 })
unfolding begin_shutdown
shutdown_keeps w o = record {
  marks_le = λ k h. ground (arith, o.marks_le k);
  done_le = ground (arith, o.done_le);
  done_popped = λ k h. ground (arith, o.done_popped k);
  done_held = λ r e k h. ground (arith, o.done_held r e k);
  pending_popped = λ r e k h z. ground (arith, o.pending_popped r e k);
  pending_le = λ r e. ground (arith, o.pending_le r e);
}

finish_keeps :
    (w : World) (r : WakeResult)
    → w.held ≡ some r
    → IsOrdered w
    → IsOrdered (record w { p = finish_round r w.p; held = none })
unfolding finish_round
finish_keeps w r e o = record {
  marks_le = λ k h. ground (arith, o.marks_le k);
  done_le = ground (arith, o.done_le, o.pending_le r e);
  done_popped = λ k h. ground (arith, o.done_popped k, o.pending_popped r e k);
  done_held = λ r' e' k h. cc;
  pending_popped = λ r' e' k h z. cc;
  pending_le = λ r' e'. cc;
}

nil_length {ℓ} : {A : Type ℓ} (xs : List A) → is_nil xs ≡ true → length xs ≡ 0
nil_length [] h = refl
nil_length (x ∷ xs) h = cc

-- What is collected and what stays make up the queue.
collected :
    (p : Processor)
    → (length (wait_and_collect p).1.batch + length (wait_and_collect p).0.queue ≡ length p.queue)
      × ((wait_and_collect p).0.flush_seq ≡ p.flush_seq)
      × ((wait_and_collect p).0.flush_done_seq ≡ p.flush_done_seq)
unfolding wait_and_collect
collected p =
    let count = min (length p.queue) p.opts.max_export_batch_size in
    (omega (arith, length-take count p.queue, length-drop count p.queue), refl, refl)

-- A pending flush means that the queue was drained.
pending_drained :
    (p : Processor)
    → 0 < (wait_and_collect p).1.pending_flush_seq
    → ((wait_and_collect p).1.pending_flush_seq ≡ p.flush_seq)
      × (length (wait_and_collect p).0.queue ≡ 0)
unfolding wait_and_collect
pending_drained p h =
    let rest = drop (min (length p.queue) p.opts.max_export_batch_size) p.queue in
    ground (arith, nil_length {0} rest)

pending_bounded : (p : Processor) → (wait_and_collect p).1.pending_flush_seq ≤ p.flush_seq
unfolding wait_and_collect
pending_bounded p = ground arith

abbrev seq_of : Option WakeResult → ℕ
seq_of none = 0
seq_of (some r) = r.pending_flush_seq

collect_keeps :
    (w : World)
    → IsOrdered w
    → IsOrdered (record w {
      p = (wait_and_collect w.p).0;
      held = some (wait_and_collect w.p).1;
      popped = w.popped + length (wait_and_collect w.p).1.batch;
      held_from = w.popped;
    })
collect_keeps w o =
    let (sum, fs, fd) = collected w.p in
    record {
      marks_le = λ k h. omega (arith, o.marks_le k (omega arith));
      done_le = omega (arith, o.done_le);
      done_popped = λ k h. omega (arith, o.done_popped k (omega arith));
      done_held = λ r e k h. o.done_popped k (omega arith);
      pending_popped = λ r e k h z.
          let same = ap seq_of e in
          let (seq, empty) = pending_drained w.p (omega arith) in
          omega (arith, o.marks_le k (omega arith));
      pending_le = λ r e. let same = ap seq_of e in omega (arith, pending_bounded w.p);
    }

Step-IsOrdered : {w u : World} → Step w u → IsOrdered w → IsOrdered u
Step-IsOrdered (enqueues w span scope) o =
    let (fs, fd) = enqueue_ends w.p span scope in
    record {
      marks_le = λ k h. omega (arith, o.marks_le k (omega arith));
      done_le = omega (arith, o.done_le);
      done_popped = λ k h. omega (arith, o.done_popped k (omega arith));
      done_held = λ r e k h. o.done_held r e k (omega arith);
      pending_popped = λ r e k h z. omega (arith, o.pending_popped r e k h z);
      pending_le = λ r e. omega (arith, o.pending_le r e);
    }
Step-IsOrdered (sets_options w opts) o =
    unfold set_options in
    record {
      marks_le = o.marks_le;
      done_le = o.done_le;
      done_popped = o.done_popped;
      done_held = o.done_held;
      pending_popped = o.pending_popped;
      pending_le = o.pending_le;
    }
Step-IsOrdered (flushes w) o = flush_keeps w o
Step-IsOrdered (shuts_down w) o = shutdown_keeps w o
Step-IsOrdered (collects w e) o = collect_keeps w o
Step-IsOrdered (finishes w r e) o = finish_keeps w r e o

pub data Reach (s : World) : World → Type 0 where
  here : Reach s s
  next : {w u : World} → Reach s w → Step w u → Reach s u

abbrev pub initial : Processor → World
initial p = record { p = p; held = none; popped = 0; held_from = 0; marks = λ k. 0 }

Reach-IsOrdered : {s w : World} → IsOrdered s → Reach s w → IsOrdered w
Reach-IsOrdered o here = o
Reach-IsOrdered o (next r st) = Step-IsOrdered st (Reach-IsOrdered o r)

initial-IsOrdered : (p : Processor) → p.flush_done_seq ≤ p.flush_seq → IsOrdered (initial p)
initial-IsOrdered p h = record {
  marks_le = λ k _. omega arith;
  done_le = h;
  done_popped = λ k _. omega arith;
  done_held = λ r e k h'. cc;
  pending_popped = λ r e k h' z. cc;
  pending_le = λ r e. cc;
}

flushed :
    {w : World}
    → IsOrdered w
    → (k i : ℕ) → flush_is_done w.p k ≡ true
    → i < w.marks k
    → ¬ IsPending w i
flushed o k i f h (inl queued) = absurd (omega (arith, o.done_popped k (ground arith)))
flushed o k i f h (inr (r, e, from, to)) = absurd (omega (arith, o.done_held r e k (ground arith)))

-- From a processor that has not completed a flush it was not asked for, with the worker idle:
-- however producers, option changes, shutdown and the worker interleave: once the wait of a
-- `ForceFlush` is satisfied, no record that was accepted before the call is still queued or in the
-- worker's hands.
pub Reach-flushed :
    {w : World} (p : Processor) (k i : ℕ)
    → p.flush_done_seq ≤ p.flush_seq
    → Reach (initial p) w
    → flush_is_done w.p k ≡ true
    → i < w.marks k
    → ¬ IsPending w i
Reach-flushed p k i h r f m = flushed (Reach-IsOrdered (initial-IsOrdered p h) r) k i f m
