-- ===== src/Agent/Retry/Budget.antt =====
-- backend/pkg/agent/loop.go: llmRetry ends, within its budget of retries, and its audit events count up.
use deep_seek_harness_x.Prelude.{
  ℕ, zero, suc, ◌+◌, ◌≤◌, ◌<◌, ◌≡◌, refl, ap, ◌∙◌, List, [], ◌∷◌, ◌++◌, Option, none, some, inl,
  inr, leb, ltb, Bool-cases, arith,
}
use deep_seek_harness_x.Agent.Retry.{
  AdapterError, LlmRetryError, is_retryable_code, classify_llm_error, retry_delay, backoff_delay,
  at_most, default_retry_initial_ms, default_retry_max_ms, RetryEvent, gave_up, retried,
  retry_started, Attempt, unavailable, cancelled, clean, failed, Outcome, Provider, Iteration, ends,
  again, iteration, after_failure, after_attempt, schedule_retry, continue, retry_loop, llm_retry,
}

-- The audit trail of a loop whose next retry is `n + 1`: each scheduled retry is followed by its start, the
-- numbers count up by one within the budget, no delay passes the cap, and giving up comes last.
unfoldable pub IsAudit : ℕ → ℕ → List RetryEvent → Type 0
IsAudit max_retries n [] = Unit
IsAudit max_retries n (gave_up r m c t ∷ rest) =
    (r ≤ max_retries + 1) × (m ≡ max_retries) × (rest ≡ [])
IsAudit max_retries n (retried r m d c t ∷ []) =
    (r ≡ n + 1) × (r ≤ max_retries) × (m ≡ max_retries) × (d ≤ default_retry_max_ms)
IsAudit max_retries n (retried r m d c t ∷ retry_started s ∷ rest) =
    (r ≡ n + 1)
    × (r ≤ max_retries)
    × (m ≡ max_retries)
    × (d ≤ default_retry_max_ms)
    × (s ≡ r)
    × IsAudit max_retries (n + 1) rest
IsAudit max_retries n _ = ⊥

pub at_most-le : (max n : ℕ) → at_most max n ≤ max
at_most-le max n = ground arith

backoff_delay-le :
    (scale : ℕ → ℕ) (initial max retry : ℕ) → backoff_delay scale initial max retry ≤ max
unfolding backoff_delay
backoff_delay-le scale initial max retry = ground arith

pub retry_delay-le :
    (scale : ℕ → ℕ) (failure : LlmRetryError) (n : ℕ)
    → retry_delay scale failure n ≤ default_retry_max_ms
unfolding retry_delay
retry_delay-le scale failure n = elim (Bool-cases (ltb 0 failure.provider_retry_after_ms)) [
  | inl asked ↦ rw asked (at_most-le default_retry_max_ms failure.provider_retry_after_ms)
  | inr local ↦
      rw local (backoff_delay-le scale default_retry_initial_ms default_retry_max_ms (n + 1))
]

-- What one iteration yields.
IsStep : ℕ → ℕ → Iteration → Type 0
IsStep max_retries n (ends outcome more) = IsAudit max_retries n more
IsStep max_retries n (again more) =
    (n < max_retries)
    × ((rest : List RetryEvent)
        → IsAudit max_retries (n + 1) rest
        → IsAudit max_retries n (more ++ rest))

schedule_retry-IsStep :
    (p : Provider) (max_retries n : ℕ) (failure : LlmRetryError)
    → n < max_retries
    → IsStep max_retries n (schedule_retry p max_retries n failure)
unfolding IsStep IsAudit
schedule_retry-IsStep p max_retries n failure h =
    let within : n + 1 ≤ max_retries = omega (arith, h) in
    let capped = retry_delay-le (p.scale n) failure n in
    elim (Bool-cases (p.wait_aborted n)) [
      | inl aborted ↦ rw aborted (refl, within, refl, capped)
      | inr waited ↦ rw waited (h, λ rest audit. (refl, within, refl, capped, refl, audit))
    ]

after_failure-IsStep :
    (p : Provider) (max_retries n : ℕ) (e : AdapterError) (failure : Option LlmRetryError)
    → n ≤ max_retries
    → IsStep max_retries n (after_failure p max_retries n e failure)
unfolding IsStep IsAudit
after_failure-IsStep p max_retries n e none h = (omega (arith, h), refl, refl)
after_failure-IsStep p max_retries n e (some failure) h =
    elim (Bool-cases (is_retryable_code failure.code)) [
      | inr fatal ↦ rw fatal (omega (arith, h), refl, refl)
      | inl retryable ↦ elim (Bool-cases (leb max_retries n)) [
        | inl spent ↦ rw (retryable, spent) (omega (arith, h), refl, refl)
        | inr left ↦
            rw (retryable, left)
              (schedule_retry-IsStep p max_retries n failure (ground (arith, left)))
      ]
    ]

iteration-IsStep :
    (p : Provider) (max_retries n : ℕ)
    → n ≤ max_retries
    → IsStep max_retries n (iteration p max_retries n)
unfolding iteration IsStep IsAudit
iteration-IsStep p max_retries n h = by_attempt (p.attempt n)
  where
    by_attempt : (a : Attempt) → IsStep max_retries n (after_attempt p max_retries n a)
    by_attempt unavailable = tt
    by_attempt cancelled = tt
    by_attempt clean = tt
    by_attempt (failed e) = after_failure-IsStep p max_retries n e (classify_llm_error e) h

append_assoc : (xs ys zs : List RetryEvent) → (xs ++ ys) ++ zs ≡ xs ++ (ys ++ zs)
append_assoc [] ys zs = refl
append_assoc (x ∷ xs) ys zs = rw (append_assoc xs ys zs)

append_nil : (xs : List RetryEvent) → xs ++ [] ≡ xs
append_nil [] = refl
append_nil (x ∷ xs) = rw (append_nil xs)

-- The loop ended, with these events behind those it had.
unfoldable pub IsEnded : ℕ → ℕ → List RetryEvent → Option (Outcome × List RetryEvent) → Type 0
IsEnded max_retries n events result =
    (outcome : Outcome) × ((more : List RetryEvent) × (result ≡ some (outcome, events ++ more))
      × IsAudit max_retries n more)

pub retry_loop-IsEnded :
    (fuel : ℕ) (p : Provider) (max_retries n : ℕ) (events : List RetryEvent)
    → n ≤ max_retries
    → max_retries < n + fuel
    → IsEnded max_retries n events (retry_loop fuel p max_retries n events)
unfolding retry_loop IsEnded IsStep
retry_loop-IsEnded zero p max_retries n events h enough = absurd (omega (arith, h, enough))
retry_loop-IsEnded (suc fuel) p max_retries n events h enough =
    by_iteration (iteration p max_retries n) (iteration-IsStep p max_retries n h) (λ all left.
      retry_loop-IsEnded fuel p max_retries (n + 1) all (omega (arith, left))
        (omega (arith, enough)))
  where
    by_iteration :
        (i : Iteration)
        → IsStep max_retries n i
        → ((all : List RetryEvent)
            → n < max_retries
            → IsEnded max_retries (n + 1) all (retry_loop fuel p max_retries (n + 1) all))
        → IsEnded max_retries n events (continue events i (retry_loop fuel p max_retries (n + 1)))
    by_iteration (ends outcome more) step rest = (outcome, (more, refl, step))
    by_iteration (again more) step rest =
        let next = rest (events ++ more) step.0 in
        (
          next.0,
          (
            more ++ next.1.0,
            next.1.1 ∙ ap (λ all. some (next.0, all)) (append_assoc events more next.1.0),
            step.1 next.1.0 next.1.2,
          ),
        )

-- Whatever the provider does, the retry loop ends within `max_retries + 1` attempts, and the events it emits
-- number the retries 1, 2, ... within the budget, follow each scheduled retry by its start unless the wait
-- was aborted, keep every delay within the cap and give up at most once, last.
pub llm_retry-IsEnded :
    (p : Provider) (max_retries : ℕ) → IsEnded max_retries 0 [] (llm_retry p max_retries)
unfolding llm_retry
llm_retry-IsEnded p max_retries =
    retry_loop-IsEnded (max_retries + 1) p max_retries 0 [] (omega arith) (omega arith)
