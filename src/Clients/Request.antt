-- ===== src/Clients/Request.antt =====
-- `ResilientHttpClient.request` of backend/src/api/clients/base.py: a request behind the breaker, with
-- repeats. What the transport gives at each attempt is a parameter.
pub mod Stuck
use kb_concierge.Prelude.{ℕ, Bool, true, false, ◌||◌, if◌then◌else◌, leb, ◌==◌}
use kb_concierge.Clients.Breaker.{Breaker, acquire, record_success, record_failure}
use kb_concierge.Clients.Retry.{RetryPolicy, Attempt, gave, retryable, fatal, Retried, retry_async}

-- What `http.request` gives: a response by its status, a transport error, or another exception.
pub data Sent : Type 0 where
  response : ℕ → Sent
  transport_error other_error : Sent

-- `_is_retryable_status`
unfoldable pub is_retryable_status : ℕ → Bool
is_retryable_status code = leb 500 code || (code == 429)

-- `_attempt`
unfoldable pub attempt_of : Sent → Attempt ℕ
attempt_of (response code) = if is_retryable_status code then retryable else gave code
attempt_of transport_error = retryable
attempt_of other_error = fatal

-- `CircuitOpenError`, a status, `ExternalServiceError`, or the exception of the transport.
pub data Outcome : Type 0 where
  circuit_open : Outcome
  answered : ℕ → Outcome
  unavailable : Outcome
  raised : Outcome

-- What follows from the attempts; the second time is the one of the record.
unfoldable pub concluded : ℕ → Attempt ℕ → Breaker → Outcome × Breaker
concluded now (gave code) b = (answered code, record_success b)
concluded now retryable b = (unavailable, record_failure now b)
concluded now fatal b = (raised, b)

-- `ResilientHttpClient.request`: it starts at one time and ends at another.
unfoldable pub request : RetryPolicy → (ℕ → Sent) → ℕ → ℕ → Breaker → Outcome × Breaker
request policy send start end_ b =
    let (admitted, b') = acquire start b in
    if admitted
    then concluded end_ (retry_async policy (λ i. attempt_of (send i))).outcome b'
    else (circuit_open, b')
