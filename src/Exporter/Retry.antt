-- ===== src/Exporter/Retry.antt =====
-- src/exporter/retry_engine.cpp and retry_policy.cpp: one batch's retries and its accounting.
-- What the engine asks of its surroundings is an `Env`, read by the number of the retry: the clock,
-- the random draw, whether `Abort` came within a given time of the wait, and the attempt itself.
-- `double` is a parameter. Times are milliseconds.
pub mod Loop
pub mod Outcome
mod Tests
use microtel.Prelude.{
  ℕ, zero, suc, ◌+◌, ◌-◌, ◌==◌, Bool, true, false, not, ◌&&◌, ◌||◌, if◌then◌else◌, ltb, leb, List,
  [], ◌∷◌, Option, none, some, length,
}
use microtel.Prelude.Bytes.{Bytes}
use microtel.Sdk.Diagnostics.{
  Error, Kind, Diagnostics, DropReason, record_drop, record_batch_sent, record_batch_failed,
}

-- `WireResult` of include/microtel/internal/wire_result.hpp.
pub record WireResult : Type 0 where
  pub success : Bool
  pub retryable : Bool
  pub retry_after : Option ℕ
  pub partial_success_rejected : ℕ
  pub error : Option Error
  pub response_excerpt : Bytes

-- The operations of `double` that `ComputeBackoff` uses. `trunc` is the cast to `rep`, of a value
-- that is not negative.
pub record Double : Type 1 where
  pub D : Type 0
  pub of_ℕ : ℕ → D
  pub add : D → D → D
  pub sub : D → D → D
  pub mul : D → D → D
  pub pow : D → D → D
  pub min : D → D → D
  pub max : D → D → D
  pub trunc : D → ℕ

module _ (f : Double) where
  open f use {D}

  pub record RetryPolicyConfig : Type 0 where
    pub max_attempts : ℕ
    pub initial_backoff : ℕ
    pub max_backoff : ℕ
    pub backoff_multiplier : D
    pub jitter_fraction : D
    pub retry_budget : ℕ

  -- What a retry, numbered from 1, meets. `aborted_within n wait` is the answer of `m_cv.wait_for`
  -- for the duration `wait` before retry `n`: whether `m_aborted` was set before it was over.
  pub record Env : Type 0 where
    pub start : ℕ
    pub clock_now : ℕ → ℕ
    pub draw_jitter_01 : ℕ → D
    pub aborted_within : ℕ → ℕ → Bool
    pub retry : ℕ → WireResult

module _ {f : Double} where
  open f use {D, of_ℕ, add, sub, mul, pow, min, max, trunc}

  -- The jittered exponential part, before `retry_after` is looked at.
  pub jittered_backoff : ℕ → RetryPolicyConfig f → D → ℕ
  jittered_backoff attempt config jitter_01 =
      let scaled =
        mul (of_ℕ config.initial_backoff) (pow config.backoff_multiplier (of_ℕ attempt)) in
      let base_ms = min scaled (of_ℕ config.max_backoff) in
      let jitter =
        mul (mul base_ms config.jitter_fraction) (sub (mul (of_ℕ 2) jitter_01) (of_ℕ 1)) in
      trunc (max (of_ℕ 0) (add base_ms jitter))

  pub compute_backoff : ℕ → RetryPolicyConfig f → Option ℕ → D → ℕ
  compute_backoff attempt config retry_after jitter_01 =
      let backoff = jittered_backoff attempt config jitter_01 in
      elim retry_after [ none ↦ backoff | some wait ↦ if ltb backoff wait then wait else backoff ]

  pub backoff_at : RetryPolicyConfig f → Env f → WireResult → ℕ → ℕ
  unfolding compute_backoff
  backoff_at policy env last attempt =
      compute_backoff (attempt - 1) policy last.retry_after (env.draw_jitter_01 attempt)

  abbrev pub budget_deadline : RetryPolicyConfig f → Env f → ℕ
  budget_deadline policy env = env.start + policy.retry_budget

  unfoldable pub sleep_unless_aborted : Env f → ℕ → ℕ → Bool
  sleep_unless_aborted env attempt backoff = not (env.aborted_within attempt backoff)

  pub back_off_before_retry : RetryPolicyConfig f → Env f → WireResult → ℕ → Bool
  unfolding sleep_unless_aborted
  back_off_before_retry policy env last attempt =
      if last.success || not last.retryable
      then false
      else if leb (budget_deadline policy env)
          (env.clock_now attempt + backoff_at policy env last attempt)
      then false
      else sleep_unless_aborted env attempt (backoff_at policy env last attempt)

  -- The rounds that are left, the number of the next retry, and the result before it. The results
  -- of the retries made, in order: `last` is the last of them.
  pub retries_from : ℕ → RetryPolicyConfig f → Env f → ℕ → WireResult → List WireResult
  unfolding back_off_before_retry
  retries_from zero policy env attempt previous = []
  retries_from (suc rounds) policy env attempt previous =
      let rest =
        env.retry attempt ∷ retries_from rounds policy env (attempt + 1) (env.retry attempt) in
      if back_off_before_retry policy env previous attempt then rest else []

  pub retries : RetryPolicyConfig f → Env f → WireResult → List WireResult
  unfolding retries_from
  retries policy env first_attempt =
      let max_attempts = if ltb 0 policy.max_attempts then policy.max_attempts else 1 in
      retries_from (max_attempts - 1) policy env 1 first_attempt

abbrev pub last_of : List WireResult → Option WireResult
last_of [] = none
last_of (r ∷ []) = some r
last_of (r ∷ s ∷ rs) = last_of (s ∷ rs)

module _ {f : Double} where
  pub run_retry_loop : RetryPolicyConfig f → Env f → WireResult → Option WireResult
  unfolding retries
  run_retry_loop policy env first_attempt = last_of (retries policy env first_attempt)

  -- The outcome of the request, and what the recovery counter gets.
  pub resolve :
      RetryPolicyConfig f → Env f → WireResult → ℕ → Diagnostics → WireResult × Diagnostics
  resolve policy env first_attempt batches diag =
      if first_attempt.success || not first_attempt.retryable
      then (first_attempt, diag)
      else elim (run_retry_loop policy env first_attempt) [
        | none ↦ (first_attempt, diag)
        | some retried ↦ (
          retried,
          if retried.success
              then record_drop DropReason.retryable_failure_recovered batches diag
              else diag,
        )
      ]

record_sent : ℕ → Diagnostics → Diagnostics
record_sent zero diag = diag
record_sent (suc n) diag = record_sent n (record_batch_sent diag)

record_failed : ℕ → Error → ℕ → Diagnostics → Diagnostics
record_failed zero error now diag = diag
record_failed (suc n) error now diag =
    record_failed n error now (record_batch_failed error now diag)

abbrev or_stage : Option Error → Bytes → Error
or_stage none failure_stage = record { kind = Kind.network; message = failure_stage; os_errno = 0 }
or_stage (some e) failure_stage = e

-- The drops counted before the batches are: those of a success, and those of a failure.
count_rejected : WireResult → Diagnostics → Diagnostics
count_rejected result diag =
    if ltb 0 result.partial_success_rejected
    then record_drop DropReason.partial_success_rejection result.partial_success_rejected diag
    else diag

count_lost : WireResult → ℕ → Diagnostics → Diagnostics
count_lost result batches diag =
    record_drop
      (if result.retryable
        then DropReason.retry_budget_exhausted
        else DropReason.non_retryable_failure)
      batches diag

-- `now` is the wall clock's reading when a failure is recorded.
pub record_outcome : WireResult → Bytes → ℕ → ℕ → Diagnostics → Diagnostics
record_outcome result failure_stage batches now diag =
    if result.success
    then record_sent batches (count_rejected result diag)
    else record_failed batches (or_stage result.error failure_stage) now
        (count_lost result batches diag)

module _ {f : Double} where
  pub settle : RetryPolicyConfig f → Env f → WireResult → Bytes → ℕ → ℕ → Diagnostics → Diagnostics
  settle policy env first_attempt failure_stage batches now diag =
      let r = resolve policy env first_attempt batches diag in
      record_outcome r.0 failure_stage batches now r.1
