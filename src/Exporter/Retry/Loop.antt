-- ===== src/Exporter/Retry/Loop.antt =====
-- How often the retry loop tries, and what every wait before a retry keeps to.
use mathlib.Core.Path.{subst, sym}
use microtel.Prelude.{
  ℕ, zero, suc, ◌+◌, ◌-◌, ◌≤◌, ◌<◌, ◌≡◌, refl, ◌⊎◌, inl, inr, true, false, not, ◌||◌, if◌then◌else◌,
  ltb, List, [], ◌∷◌, Option, none, some, length, arith, Bool-cases,
}
use microtel.Exporter.Retry.{
  WireResult, Double, RetryPolicyConfig, Env, jittered_backoff, compute_backoff, backoff_at,
  sleep_unless_aborted, budget_deadline, back_off_before_retry, retries_from, retries,
}

abbrev pub AtLeast : Option ℕ → ℕ → Type 0
AtLeast none n = Unit
AtLeast (some wait) n = wait ≤ n

module _ {f : Double} (policy : RetryPolicyConfig f) (env : Env f) where
  -- What held before each of the retries `rs`, the first of them numbered `attempt` and made after
  -- the result `previous`.
  abbrev pub Justified : ℕ → WireResult → List WireResult → Type 0
  Justified attempt previous [] = Unit
  Justified attempt previous (r ∷ rs) =
      (previous.success ≡ false)
      × (previous.retryable ≡ true)
      × AtLeast previous.retry_after (backoff_at policy env previous attempt)
      × (jittered_backoff (attempt - 1) policy (env.draw_jitter_01 attempt)
          ≤ backoff_at policy env previous attempt)
      × (env.clock_now attempt + backoff_at policy env previous attempt
          < budget_deadline policy env)
      × (env.aborted_within attempt (backoff_at policy env previous attempt) ≡ false)
      × (r ≡ env.retry attempt)
      × Justified (attempt + 1) r rs

  backoff_at-AtLeast :
      (previous : WireResult) (attempt : ℕ)
      → AtLeast previous.retry_after (backoff_at policy env previous attempt)
  unfolding backoff_at
  backoff_at-AtLeast previous attempt = ground arith

  backoff_at-jittered_backoff :
      (previous : WireResult) (attempt : ℕ)
      → jittered_backoff (attempt - 1) policy (env.draw_jitter_01 attempt)
        ≤ backoff_at policy env previous attempt
  unfolding backoff_at compute_backoff
  backoff_at-jittered_backoff previous attempt = ground arith

  back_off_sound :
      (previous : WireResult) (attempt : ℕ)
      → back_off_before_retry policy env previous attempt ≡ true
      → (previous.success ≡ false)
        × (previous.retryable ≡ true)
        × (env.clock_now attempt + backoff_at policy env previous attempt
            < budget_deadline policy env)
        × (env.aborted_within attempt (backoff_at policy env previous attempt) ≡ false)
  unfolding back_off_before_retry sleep_unless_aborted
  back_off_sound previous attempt h = ground arith

  retries_from-Justified :
      (rounds attempt : ℕ) (previous : WireResult)
      → Justified attempt previous (retries_from rounds policy env attempt previous)
  unfolding retries_from
  retries_from-Justified zero attempt previous = tt
  retries_from-Justified (suc rounds) attempt previous = ground (
    arith,
    backoff_at-AtLeast previous attempt,
    backoff_at-jittered_backoff previous attempt,
    back_off_sound previous attempt,
    retries_from-Justified rounds (attempt + 1) (env.retry attempt),
  )

  -- Every retry is made after a retryable failure and after a wait of the whole computed backoff,
  -- within which `Abort` did not come. That backoff is no shorter than the `retry_after` of the
  -- failure nor than the jittered exponential one, and its end, reckoned from the clock's reading
  -- before the wait, is before the retry budget's. The retries' results are the environment's, in
  -- order.
  pub retries-Justified :
      (first_attempt : WireResult) → Justified 1 first_attempt (retries policy env first_attempt)
  unfolding retries
  retries-Justified first_attempt = retries_from-Justified _ 1 first_attempt

  length-retries_from :
      (rounds attempt : ℕ) (previous : WireResult)
      → length (retries_from rounds policy env attempt previous) ≤ rounds
  unfolding retries_from
  length-retries_from zero attempt previous = omega arith
  length-retries_from (suc rounds) attempt previous =
      ground (arith, length-retries_from rounds (attempt + 1) (env.retry attempt))

  -- With attempt 0 there are at most `max_attempts` attempts, and just the one if that is 0.
  length-retries :
      (first_attempt : WireResult)
      → (length (retries policy env first_attempt) + 1 ≤ policy.max_attempts)
        ⊎ (retries policy env first_attempt ≡ [])
  unfolding retries retries_from
  length-retries first_attempt =
      ground (arith, length-retries_from (policy.max_attempts - 1) 1 first_attempt)

  -- Why a loop ends that made the retries `rs`: it ran out of rounds, or the last result needs no
  -- retry, or the next wait would reach the budget, or `Abort` came within the next wait.
  abbrev pub Ends : ℕ → ℕ → WireResult → List WireResult → Type 0
  Ends rounds attempt previous (r ∷ rs) = Ends (rounds - 1) (attempt + 1) r rs
  Ends rounds attempt previous [] =
      (rounds ≡ 0)
      ⊎ (previous.success ≡ true)
      ⊎ (previous.retryable ≡ false)
      ⊎ (budget_deadline policy env
          ≤ env.clock_now attempt + backoff_at policy env previous attempt)
      ⊎ (env.aborted_within attempt (backoff_at policy env previous attempt) ≡ true)

  back_off_stops :
      (rounds : ℕ) (previous : WireResult) (attempt : ℕ)
      → back_off_before_retry policy env previous attempt ≡ false
      → Ends rounds attempt previous []
  unfolding back_off_before_retry sleep_unless_aborted
  back_off_stops rounds previous attempt h = ground arith

  retries_from-Ends :
      (rounds attempt : ℕ) (previous : WireResult)
      → Ends rounds attempt previous (retries_from rounds policy env attempt previous)
  unfolding retries_from
  retries_from-Ends zero attempt previous = inl refl
  retries_from-Ends (suc rounds) attempt previous =
      elim (Bool-cases (back_off_before_retry policy env previous attempt)) [
        | inl goes ↦ rw goes (
            subst
              (λ n.
                Ends n (attempt + 1) (env.retry attempt)
                  (retries_from rounds policy env (attempt + 1) (env.retry attempt)))
              (sym pred) (retries_from-Ends rounds (attempt + 1) (env.retry attempt)))
        | inr stops ↦ rw stops (back_off_stops (suc rounds) previous attempt stops)
      ]
    where
      pred : suc rounds - 1 ≡ rounds
      pred = omega arith

  -- The loop gives up for one of these reasons only: `max_attempts` attempts are made, the last
  -- result is a success or not retryable, the next wait would reach the retry budget, or `Abort`
  -- came within the backoff that the next wait was to last.
  pub retries-Ends :
      (first_attempt : WireResult)
      → Ends (policy.max_attempts - 1) 1 first_attempt (retries policy env first_attempt)
  unfolding retries
  retries-Ends first_attempt =
      let e : (if ltb 0 policy.max_attempts then policy.max_attempts else 1) - 1
          ≡ policy.max_attempts - 1 =
        ground arith in
      rw e (retries_from-Ends (policy.max_attempts - 1) 1 first_attempt)

  -- A first attempt that succeeded, or must not be retried, is never retried.
  pub retries_done :
      (first_attempt : WireResult)
      → (first_attempt.success || not first_attempt.retryable) ≡ true
      → retries policy env first_attempt ≡ []
  unfolding retries retries_from back_off_before_retry
  retries_done first_attempt h = go _
    where
      go : (rounds : ℕ) → retries_from rounds policy env 1 first_attempt ≡ []
      go zero = refl
      go (suc rounds) = ground arith
