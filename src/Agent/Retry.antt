-- ===== src/Agent/Retry.antt =====
-- backend/pkg/agent/loop.go: llmRetry, its classification of errors and its delays.
-- An attempt's stream is read to its end: what it ends with, and whether a wait is aborted, come from the
-- caller. Durations are whole milliseconds; the float factor of the jitter is the argument `scale`.
use deep_seek_harness_x.Prelude.{
  String, ℕ, zero, suc, ◌+◌, ◌-◌, ◌*◌, ltb, leb, Bool, true, false, not, ◌||◌, List, [], ◌∷◌, ◌++◌,
  Option, none, some, str_eq, if◌then◌else◌,
}
pub mod Budget
pub mod Recover

abbrev pub default_retry_max : ℕ
default_retry_max = 5

abbrev pub default_retry_initial_ms : ℕ
default_retry_initial_ms = 500

abbrev pub default_retry_max_ms : ℕ
default_retry_max_ms = 10000

-- An adapter's error: a ProviderError with its code, message, the text of Error() and retry-after, one of
-- the two transport sentinels, or any other error, with their text.
pub data AdapterError : Type 0 where
  provider : String → String → String → ℕ → AdapterError
  transport : String → AdapterError
  unknown : String → AdapterError

pub record LlmRetryError : Type 0 where
  pub message : String
  pub code : String
  pub provider_retry_after_ms : ℕ

unfoldable pub is_retryable_code : String → Bool
is_retryable_code code =
    str_eq code "RATE_LIMIT"
    || str_eq code "SERVER"
    || str_eq code "TIMEOUT"
    || str_eq code "TRANSPORT"
    || str_eq code "EMPTY_RESPONSE"

unfoldable pub classify_llm_error : AdapterError → Option LlmRetryError
classify_llm_error (provider code message text after) =
    if str_eq code "RATE_LIMIT"
      || str_eq code "SERVER"
      || str_eq code "TIMEOUT"
      || str_eq code "TRANSPORT"
    then some (record { message = message; code = code; provider_retry_after_ms = after })
    else none
classify_llm_error (transport message) =
    some (record { message = message; code = "TRANSPORT"; provider_retry_after_ms = 0 })
classify_llm_error (unknown message) = none

unfoldable pub failure_code : Option LlmRetryError → String
failure_code none = "UNKNOWN"
failure_code (some f) = f.code

-- `for i := 0; i < exp; i++ { base *= 2 }`
unfoldable pub doubled : ℕ → ℕ → ℕ
doubled zero base = base
doubled (suc exp) base = doubled exp (base * 2)

abbrev pub at_most : ℕ → ℕ → ℕ
at_most max n = if ltb max n then max else n

unfoldable pub backoff_delay : (ℕ → ℕ) → ℕ → ℕ → ℕ → ℕ
unfolding doubled
backoff_delay scale initial max retry =
    let exp = (if ltb retry 1 then 1 else retry) - 1 in
    at_most max (scale (at_most max (doubled (if ltb 10 exp then 10 else exp) initial)))

-- The delay before retry `attempt + 1`.
unfoldable pub retry_delay : (ℕ → ℕ) → LlmRetryError → ℕ → ℕ
unfolding backoff_delay
retry_delay scale failure attempt =
    if ltb 0 failure.provider_retry_after_ms
    then at_most default_retry_max_ms failure.provider_retry_after_ms
    else backoff_delay scale default_retry_initial_ms default_retry_max_ms (attempt + 1)

-- The events of the loop, without the turn and step numbers that all of them carry.
pub data RetryEvent : Type 0 where
  gave_up : ℕ → ℕ → String → String → RetryEvent
  retried : ℕ → ℕ → ℕ → String → String → RetryEvent
  retry_started : ℕ → RetryEvent

-- How one attempt ends.
pub data Attempt : Type 0 where
  unavailable : Attempt
  cancelled : Attempt
  clean : Attempt
  failed : AdapterError → Attempt

-- How the loop ends: what the caller reads from the two closed channels.
pub data Outcome : Type 0 where
  no_adapter : Outcome
  aborted : Outcome
  finished : Outcome
  surfaced : AdapterError → Outcome

abbrev pub error_message : AdapterError → String
error_message (provider code message text after) = text
error_message (transport message) = message
error_message (unknown message) = message

-- What the loop meets: the end of each attempt, whether the wait before the next is aborted, the jitter.
pub record Provider : Type 0 where
  pub attempt : ℕ → Attempt
  pub wait_aborted : ℕ → Bool
  pub scale : ℕ → ℕ → ℕ

-- One iteration: it ends the loop, or it has waited and the next attempt begins.
pub data Iteration : Type 0 where
  ends : Outcome → List RetryEvent → Iteration
  again : List RetryEvent → Iteration

abbrev pub schedule_retry : Provider → ℕ → ℕ → LlmRetryError → Iteration
schedule_retry p max_retries n failure =
    let delay = retry_delay (p.scale n) failure n in
    let event = retried (n + 1) max_retries delay failure.code failure.message in
    if p.wait_aborted n
    then ends aborted (event ∷ [])
    else again (event ∷ retry_started (n + 1) ∷ [])

abbrev pub give_up_unclassified : ℕ → ℕ → AdapterError → Option LlmRetryError → Iteration
give_up_unclassified max_retries n e failure =
    ends (surfaced e) (gave_up (n + 1) max_retries (failure_code failure) (error_message e) ∷ [])

abbrev pub after_failure : Provider → ℕ → ℕ → AdapterError → Option LlmRetryError → Iteration
after_failure p max_retries n e none = give_up_unclassified max_retries n e none
after_failure p max_retries n e (some failure) =
    if not (is_retryable_code failure.code)
    then give_up_unclassified max_retries n e (some failure)
    else if leb max_retries n
    then ends (surfaced e) (gave_up n max_retries failure.code "retry budget exhausted" ∷ [])
    else schedule_retry p max_retries n failure

abbrev pub after_attempt : Provider → ℕ → ℕ → Attempt → Iteration
after_attempt p max_retries n unavailable = ends no_adapter []
after_attempt p max_retries n cancelled = ends aborted []
after_attempt p max_retries n clean = ends finished []
after_attempt p max_retries n (failed e) = after_failure p max_retries n e (classify_llm_error e)

unfoldable pub iteration : Provider → ℕ → ℕ → Iteration
iteration p max_retries n = after_attempt p max_retries n (p.attempt n)

abbrev pub continue :
    List RetryEvent
    → Iteration
    → (List RetryEvent → Option (Outcome × List RetryEvent))
    → Option (Outcome × List RetryEvent)
continue events (ends outcome more) next = some (outcome, events ++ more)
continue events (again more) next = next (events ++ more)

-- The loop from attempt `n` with the events so far; `none` if it does not end within `fuel` attempts.
unfoldable pub retry_loop :
    ℕ → Provider → ℕ → ℕ → List RetryEvent → Option (Outcome × List RetryEvent)
retry_loop zero p max_retries n events = none
retry_loop (suc fuel) p max_retries n events =
    continue events (iteration p max_retries n) (retry_loop fuel p max_retries (n + 1))

unfoldable pub llm_retry : Provider → ℕ → Option (Outcome × List RetryEvent)
llm_retry p max_retries = retry_loop (max_retries + 1) p max_retries 0 []
