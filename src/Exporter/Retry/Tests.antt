-- ===== src/Exporter/Retry/Tests.antt =====
-- Runs of the retry engine, and the theorems at them: a retryable failure whose retry succeeds.
use microtel.Prelude.{
  ℕ, ◌+◌, ◌*◌, ◌-◌, ◌^◌, ◌≡◌, refl, true, false, [], ◌∷◌, none, some, arith, ltb, if◌then◌else◌,
  ◌==◌,
}
use microtel.Sdk.Diagnostics.{DropReason, initial}
use microtel.Exporter.Retry.{
  WireResult, Double, RetryPolicyConfig, Env, jittered_backoff, compute_backoff, retries_from,
  retries, settle, backoff_at, sleep_unless_aborted, back_off_before_retry,
}
use microtel.Exporter.Retry.Loop.{Justified, Ends, retries-Justified, retries-Ends}
use microtel.Exporter.Retry.Outcome.{settle_batches, settle_drops, final_result, recovered}

-- Whole numbers in place of doubles.
abbrev whole : Double
whole = record {
  D = ℕ;
  of_ℕ = λ n. n;
  add = λ a b. a + b;
  sub = λ a b. a - b;
  mul = λ a b. a * b;
  pow = λ a b. a ^ b;
  min = λ a b. if ltb a b then a else b;
  max = λ a b. if ltb a b then b else a;
  trunc = λ a. a;
}

abbrev policy : RetryPolicyConfig whole
policy = record {
  max_attempts = 5;
  initial_backoff = 1000;
  max_backoff = 32000;
  backoff_multiplier = 2;
  jitter_fraction = 0;
  retry_budget = 300000;
}

abbrev unavailable : WireResult
unavailable = record {
  success = false;
  retryable = true;
  retry_after = some 5000;
  partial_success_rejected = 0;
  error = none;
  response_excerpt = [];
}

abbrev delivered : WireResult
delivered = record unavailable { success = true; retryable = false; retry_after = none }

-- The first retry fails, the second succeeds.
abbrev env : Env whole
env = record {
  start = 0;
  clock_now = λ n. n * 6000;
  draw_jitter_01 = λ n. 0;
  aborted_within = λ n wait. ltb 5000 wait;
  retry = λ n. if n == 2 then delivered else unavailable;
}

two_retries : retries policy env unavailable ≡ unavailable ∷ delivered ∷ []
unfolding retries retries_from back_off_before_retry sleep_unless_aborted backoff_at compute_backoff
    jittered_backoff
two_retries = refl

retries-Justified_example : Justified policy env 1 unavailable (retries policy env unavailable)
retries-Justified_example = retries-Justified policy env unavailable

retries-Ends_example : Ends policy env 4 1 unavailable (retries policy env unavailable)
retries-Ends_example = retries-Ends policy env unavailable

settle_batches_example :
    (settle policy env unavailable [] 3 9 initial).batches_sent
    ≡ (if (final_result policy env unavailable).success then 3 else 0)
settle_batches_example =
    (settle_batches policy env unavailable [] 3 9 initial (omega arith) (omega arith)).0

settle_drops_example :
    (settle policy env unavailable [] 3 9 initial).drops 14
    ≡ (if recovered policy env unavailable then 3 else 0)
settle_drops_example =
    settle_drops policy env unavailable [] 3 9 initial DropReason.retryable_failure_recovered
      (omega arith) (omega arith)
