-- ===== src/Exporter/Retry/Outcome.antt =====
-- What `Settle` counts for a request of several batches.
use microtel.Prelude.{
  ℕ, zero, suc, ◌^◌, ◌<◌, ◌≡◌, refl, inl, inr, Bool, true, false, not, ◌&&◌, ◌||◌, if◌then◌else◌,
  ltb, none, some, arith, Bool-cases, ◌∙◌, ap,
}
use microtel.Prelude.Bytes.{Bytes}
use microtel.Sdk.Diagnostics.{
  Error, Diagnostics, DropReason, to_index, fetch_add, record_drop, record_batch_sent,
  record_batch_failed,
}
use microtel.Exporter.Retry.Loop.{retries_done}
use microtel.Exporter.Retry.{
  WireResult, Double, RetryPolicyConfig, Env, run_retry_loop, resolve, record_sent, record_failed,
  count_rejected, count_lost, or_stage, record_outcome, settle,
}

record_sent_sent :
    (n : ℕ) (d : Diagnostics)
    → d.batches_sent < 2 ^ 64
    → ((record_sent n d).batches_sent ≡ fetch_add d.batches_sent n)
      × ((record_sent n d).batches_failed ≡ d.batches_failed)
      × ((record_sent n d).drops ≡ d.drops)
unfolding record_sent record_batch_sent
record_sent_sent zero d h = (omega arith, refl, refl)
record_sent_sent (suc n) d h =
    let ih = record_sent_sent n (record_batch_sent d) (omega arith) in (omega arith, ih.1, ih.2)

record_failed_failed :
    (n : ℕ) (e : Error) (now : ℕ) (d : Diagnostics)
    → d.batches_failed < 2 ^ 64
    → ((record_failed n e now d).batches_failed ≡ fetch_add d.batches_failed n)
      × ((record_failed n e now d).batches_sent ≡ d.batches_sent)
      × ((record_failed n e now d).drops ≡ d.drops)
unfolding record_failed record_batch_failed
record_failed_failed zero e now d h = (omega arith, refl, refl)
record_failed_failed (suc n) e now d h =
    let ih = record_failed_failed n e now (record_batch_failed e now d) (omega arith) in
    (omega arith, ih.1, ih.2)

-- Which counters a final result is counted by.
abbrev pub counted_by : DropReason → WireResult → Bool → Bool
counted_by DropReason.partial_success_rejection final recovered =
    final.success && ltb 0 final.partial_success_rejected
counted_by DropReason.non_retryable_failure final recovered =
    not final.success && not final.retryable
counted_by DropReason.retry_budget_exhausted final recovered = not final.success && final.retryable
counted_by DropReason.retryable_failure_recovered final recovered = recovered
counted_by _ final recovered = false

-- What such a counter gets.
abbrev pub amount : DropReason → WireResult → ℕ → ℕ
amount DropReason.partial_success_rejection final batches = final.partial_success_rejected
amount _ final batches = batches

count_rejected_batches :
    (r : WireResult) (d : Diagnostics)
    → ((count_rejected r d).batches_sent ≡ d.batches_sent)
      × ((count_rejected r d).batches_failed ≡ d.batches_failed)
unfolding count_rejected record_drop
count_rejected_batches r d = ground arith

record_outcome_batches :
    (r : WireResult) (stage : Bytes) (batches now : ℕ) (d : Diagnostics)
    → d.batches_sent < 2 ^ 64
    → d.batches_failed < 2 ^ 64
    → let d' = record_outcome r stage batches now d in
      (d'.batches_sent ≡ (if r.success then fetch_add d.batches_sent batches else d.batches_sent))
      × (d'.batches_failed
          ≡ (if r.success then d.batches_failed else fetch_add d.batches_failed batches))
unfolding record_outcome count_lost record_drop
record_outcome_batches r stage batches now d hs hf = ground (
  arith,
  count_rejected_batches r d,
  record_sent_sent batches (count_rejected r d),
  record_failed_failed batches (or_stage r.error stage) now (count_lost r batches d),
)

count_lost_batches :
    (r : WireResult) (batches : ℕ) (d : Diagnostics)
    → ((count_lost r batches d).batches_sent ≡ d.batches_sent)
      × ((count_lost r batches d).batches_failed ≡ d.batches_failed)
unfolding count_lost record_drop
count_lost_batches r batches d = (refl, refl)

record_outcome_shape :
    (r : WireResult) (stage : Bytes) (batches now : ℕ) (d : Diagnostics)
    → d.batches_sent < 2 ^ 64
    → d.batches_failed < 2 ^ 64
    → (record_outcome r stage batches now d).drops
      ≡ (if r.success then (count_rejected r d).drops else (count_lost r batches d).drops)
unfolding record_outcome
record_outcome_shape r stage batches now d hs hf = ground (
  arith,
  count_rejected_batches r d,
  count_lost_batches r batches d,
  record_sent_sent batches (count_rejected r d),
  record_failed_failed batches (or_stage r.error stage) now (count_lost r batches d),
)

counted_drops :
    (s : DropReason) (r : WireResult) (batches : ℕ) (d : Diagnostics)
    → (if r.success then (count_rejected r d).drops else (count_lost r batches d).drops)
        (to_index s)
      ≡ (if counted_by s r false
          then fetch_add (d.drops (to_index s)) (amount s r batches)
          else d.drops (to_index s))
unfolding count_lost count_rejected record_drop
counted_drops DropReason.queue_full r batches d = ground arith
counted_drops _ r batches d = ground arith

module _ {f : Double} (policy : RetryPolicyConfig f) (env : Env f) where
  -- The result that stands for the request: the last retry's, or the first attempt's if there was
  -- no retry.
  abbrev pub final_result : WireResult → WireResult
  final_result first_attempt = elim (run_retry_loop policy env first_attempt) [
    | none ↦ first_attempt
    | some r ↦ r
  ]

  abbrev pub recovered : WireResult → Bool
  recovered first_attempt = not first_attempt.success && (final_result first_attempt).success

  run_retry_loop_done :
      (first_attempt : WireResult)
      → (first_attempt.success || not first_attempt.retryable) ≡ true
      → run_retry_loop policy env first_attempt ≡ none
  unfolding run_retry_loop
  run_retry_loop_done first_attempt h = rw (retries_done policy env first_attempt h)

  abbrev after_retries : WireResult → ℕ → Diagnostics → Diagnostics
  after_retries first_attempt batches d =
      if recovered first_attempt
      then record_drop DropReason.retryable_failure_recovered batches d
      else d

  resolve_lem :
      (first_attempt : WireResult) (batches : ℕ) (d : Diagnostics)
      → ((resolve policy env first_attempt batches d).0 ≡ final_result first_attempt)
        × ((resolve policy env first_attempt batches d).1 ≡ after_retries first_attempt batches d)
  unfolding resolve
  resolve_lem first_attempt batches d =
      elim (Bool-cases (first_attempt.success || not first_attempt.retryable)) [
        | inl stands ↦ ground (arith, run_retry_loop_done first_attempt stands)
        | inr fails ↦ ground arith
      ]

  -- With both batch counters below 2 ^ 64, `Settle` counts a request of `batches` batches exactly once: all of them as sent if the final
  -- result is a success, all of them as failed otherwise, and never both.
  pub settle_batches :
      (first_attempt : WireResult) (stage : Bytes) (batches now : ℕ) (d : Diagnostics)
      → d.batches_sent < 2 ^ 64
      → d.batches_failed < 2 ^ 64
      → let d' = settle policy env first_attempt stage batches now d in
        let ok = (final_result first_attempt).success in
        (d'.batches_sent ≡ (if ok then fetch_add d.batches_sent batches else d.batches_sent))
        × (d'.batches_failed
            ≡ (if ok then d.batches_failed else fetch_add d.batches_failed batches))
  unfolding settle record_drop
  settle_batches first_attempt stage batches now d hs hf = ground (
    arith,
    resolve_lem first_attempt batches d,
    record_outcome_batches (final_result first_attempt) stage batches now
        (after_retries first_attempt batches d),
  )

  after_retries_drops :
      (first_attempt : WireResult) (batches : ℕ) (d : Diagnostics) (s : DropReason)
      → let final = final_result first_attempt in
        (if counted_by s final false
          then fetch_add
              ((after_retries first_attempt batches d).drops (to_index s))
              (amount s final batches)
          else (after_retries first_attempt batches d).drops (to_index s))
        ≡ (if counted_by s final (recovered first_attempt)
            then fetch_add (d.drops (to_index s)) (amount s final batches)
            else d.drops (to_index s))
  unfolding record_drop
  after_retries_drops first_attempt batches d DropReason.queue_full = ground arith
  after_retries_drops first_attempt batches d _ = ground arith

  -- With both batch counters below 2 ^ 64, what the drop counters get from `Settle`, one by one: a request that was lost adds its
  -- batches to one of `retry_budget_exhausted` and `non_retryable_failure`, as its final result is
  -- retryable or not; one that a retry delivered adds them to `retryable_failure_recovered`; one
  -- that the collector kept in part adds what it rejected; no other counter moves.
  pub settle_drops :
      (first_attempt : WireResult) (stage : Bytes) (batches now : ℕ) (d : Diagnostics)
      (s : DropReason)
      → d.batches_sent < 2 ^ 64
      → d.batches_failed < 2 ^ 64
      → let final = final_result first_attempt in
        (settle policy env first_attempt stage batches now d).drops (to_index s) ≡ (
          if counted_by s final (recovered first_attempt)
          then fetch_add (d.drops (to_index s)) (amount s final batches)
          else d.drops (to_index s))
  unfolding settle
  settle_drops first_attempt stage batches now d s hs hf =
      let (result, diag) = resolve_lem first_attempt batches d in
      rw (result, diag)
        (ap (λ (g : ℕ → ℕ). g (to_index s))
            (record_outcome_shape (final_result first_attempt) stage batches now
              (after_retries first_attempt batches d) (unfold record_drop in ground arith)
              (unfold record_drop in ground arith))
          ∙ counted_drops s (final_result first_attempt) batches
              (after_retries first_attempt batches d)
          ∙ after_retries_drops first_attempt batches d s)
