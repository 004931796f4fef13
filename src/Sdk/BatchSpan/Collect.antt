-- ===== src/Sdk/BatchSpan/Collect.antt =====
-- `WaitAndCollect`: batches leave in order, none is too large, and the byte count follows.
use Prim.Native.Nat.{min}
use microtel.Prelude.{
  ℕ, zero, suc, ◌^◌, ◌≤◌, ◌<◌, ◌≡◌, List, [], ◌∷◌, ◌++◌, length, drop, take-append-drop,
  length-take, arith,
}
use microtel.Sdk.BatchSpan.{QueuedSpan, Processor, wait_and_collect, bytes_after, sub64}
use microtel.Sdk.BatchSpan.Queue.{sum_bytes, IsConsistent}

bytes_after_lem :
    (n : ℕ) (qs : List QueuedSpan) (b : ℕ)
    → b ≡ sum_bytes qs
    → b < 2 ^ 64
    → bytes_after n qs b ≡ sum_bytes (drop n qs)
unfolding bytes_after
bytes_after_lem zero qs b e h = e
bytes_after_lem (suc n) [] b e h = e
bytes_after_lem (suc n) (q ∷ qs) b e h =
    bytes_after_lem n qs (sub64 b q.bytes) (omega arith) (omega arith)

sum_bytes-drop : (n : ℕ) (qs : List QueuedSpan) → sum_bytes (drop n qs) ≤ sum_bytes qs
sum_bytes-drop zero qs = omega arith
sum_bytes-drop (suc n) [] = omega arith
sum_bytes-drop (suc n) (q ∷ qs) = omega (arith, sum_bytes-drop n qs)

-- From a consistent processor, a wake-up takes the oldest records, in order and `max_export_batch_size` at most, all of them if
-- there are no more; the others stay in order, and the byte count stays exact.
wait_and_collect_fifo :
    (p : Processor)
    → IsConsistent p
    → let r = wait_and_collect p in
      (r.1.batch ++ r.0.queue ≡ p.queue)
      × (length r.1.batch ≡ min (length p.queue) p.opts.max_export_batch_size)
      × IsConsistent r.0
unfolding wait_and_collect
wait_and_collect_fifo p v =
    let count = min (length p.queue) p.opts.max_export_batch_size in
    let left =
      bytes_after_lem count p.queue p.queue_bytes v.counted
        (omega (arith, v.within, v.total_fits)) in
    (
      take-append-drop count p.queue,
      omega (arith, length-take count p.queue),
      record {
        counted = left;
        within = omega (arith, left, sum_bytes-drop count p.queue, v.counted, v.within);
        total_fits = v.total_fits;
        record_fits = v.record_fits;
      },
    )
