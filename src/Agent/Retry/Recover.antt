-- ===== src/Agent/Retry/Recover.antt =====
-- backend/pkg/agent/loop.go: llmRetry reaches an attempt that succeeds within its budget.
use deep_seek_harness_x.Prelude.{
  ℕ, zero, suc, ◌+◌, ◌≤◌, ◌<◌, true, false, ◌≡◌, refl, ap, sym, ◌∙◌, subst, ◌||◌, List, [], ◌++◌,
  some, some-injective, inl, inr, leb, Bool-cases, str_eq, arith,
}
use deep_seek_harness_x.Agent.Retry.{
  AdapterError, LlmRetryError, is_retryable_code, classify_llm_error, RetryEvent, clean, failed,
  finished, Provider, ends, again, iteration, retry_loop, llm_retry,
}

-- Attempt `n` fails in a way that the policy retries, and the wait after it is not aborted.
unfoldable pub IsTransient : Provider → ℕ → Type 0
IsTransient p n =
    (e : AdapterError) × ((failure : LlmRetryError) × (p.attempt n ≡ failed e)
      × (classify_llm_error e ≡ some failure)
      × (p.wait_aborted n ≡ false))

pub classify_llm_error-retryable :
    (e : AdapterError) (failure : LlmRetryError)
    → classify_llm_error e ≡ some failure
    → is_retryable_code failure.code ≡ true
unfolding classify_llm_error is_retryable_code
classify_llm_error-retryable (AdapterError.provider code message text after) failure h =
    elim (Bool-cases (
      str_eq code "RATE_LIMIT"
      || str_eq code "SERVER"
      || str_eq code "TIMEOUT"
      || str_eq code "TRANSPORT")) [
        | inl known ↦
            subst (λ f. is_retryable_code f.code ≡ true) (some-injective (rw known at h))
              (ground (arith, known))
        | inr other ↦ let missed = rw other at h in cc
      ]
classify_llm_error-retryable (AdapterError.transport message) failure h =
    subst (λ f. is_retryable_code f.code ≡ true) (some-injective h) refl
classify_llm_error-retryable (AdapterError.unknown message) failure h = cc

iteration-transient :
    (p : Provider) (max_retries n : ℕ)
    → n < max_retries
    → IsTransient p n
    → (more : List RetryEvent) × (iteration p max_retries n ≡ again more)
unfolding iteration IsTransient
iteration-transient p max_retries n h (e, (failure, fails, classified, waited)) =
    let left : leb max_retries n ≡ false = ground (arith, h) in
    rw (fails, classified, classify_llm_error-retryable e failure classified, left, waited)
      (_, refl)

iteration-clean :
    (p : Provider) (max_retries n : ℕ)
    → p.attempt n ≡ clean
    → iteration p max_retries n ≡ ends finished []
unfolding iteration
iteration-clean p max_retries n h = rw h refl

retry_loop-recovers :
    (ahead fuel : ℕ) (p : Provider) (max_retries n : ℕ) (events : List RetryEvent)
    → n + ahead ≤ max_retries
    → ahead < fuel
    → ((j : ℕ) → j < n + ahead → IsTransient p j)
    → p.attempt (n + ahead) ≡ clean
    → (all : List RetryEvent) × (retry_loop fuel p max_retries n events ≡ some (finished, all))
unfolding retry_loop
retry_loop-recovers ahead zero p max_retries n events h enough transient succeeds =
    absurd (omega (arith, enough))
retry_loop-recovers zero (suc fuel) p max_retries n events h enough transient succeeds =
    let here : n + 0 ≡ n = omega arith in
    rw (iteration-clean p max_retries n (ap p.attempt (sym here) ∙ succeeds)) (events ++ [], refl)
retry_loop-recovers (suc ahead) (suc fuel) p max_retries n events h enough transient succeeds =
    let step = iteration-transient p max_retries n (omega (arith, h)) (transient n (omega arith)) in
    let shift : n + suc ahead ≡ n + 1 + ahead = omega arith in
    rw step.1 (
      retry_loop-recovers ahead fuel p max_retries (n + 1) (events ++ step.0) (omega (arith, h))
        (omega (arith, enough)) (λ j before. transient j (omega (arith, before)))
        (ap p.attempt (sym shift) ∙ succeeds))

-- Where the attempts before `k` fail in ways that the policy retries, no wait is aborted and attempt `k`, within
-- the budget, succeeds, the retry loop ends with success.
pub llm_retry-recovers :
    (p : Provider) (max_retries k : ℕ)
    → k ≤ max_retries
    → ((j : ℕ) → j < k → IsTransient p j)
    → p.attempt k ≡ clean
    → (all : List RetryEvent) × (llm_retry p max_retries ≡ some (finished, all))
unfolding llm_retry
llm_retry-recovers p max_retries k h transient succeeds =
    let from_zero : 0 + k ≡ k = omega arith in
    retry_loop-recovers k (max_retries + 1) p max_retries 0 [] (omega (arith, h)) (omega (arith, h))
      (λ j before. transient j (omega (arith, before))) (ap p.attempt from_zero ∙ succeeds)
