-- ===== src/Clients/Breaker.antt =====
-- backend/src/api/clients/circuit_breaker.py: a circuit breaker, with the clock as an argument. A
-- lock makes each operation one step. Times are in milliseconds.
pub mod States
use kb_concierge.Prelude.{ℕ, ◌+◌, Bool, true, false, if◌then◌else◌, leb}

pub data CircuitState : Type 0 where
  closed opened half_open : CircuitState

pub record Breaker : Type 0 where
  pub threshold : ℕ
  pub reset_timeout : ℕ
  pub state : CircuitState
  pub failures : ℕ
  pub opened_at : ℕ
  pub half_open_in_flight : Bool

-- `CircuitBreaker(…)`
abbrev pub fresh : ℕ → ℕ → Breaker
fresh threshold reset_timeout = record {
  threshold = threshold;
  reset_timeout = reset_timeout;
  state = closed;
  failures = 0;
  opened_at = 0;
  half_open_in_flight = false;
}

acquire_in : CircuitState → ℕ → Breaker → Bool × Breaker
acquire_in opened now b =
    if leb (b.opened_at + b.reset_timeout) now
    then (true, record b { state = half_open; half_open_in_flight = true })
    else (false, b)
acquire_in half_open now b =
    if b.half_open_in_flight then (false, b) else (true, record b { half_open_in_flight = true })
acquire_in closed now b = (true, b)

-- `acquire`
unfoldable pub acquire : ℕ → Breaker → Bool × Breaker
unfolding acquire_in
acquire now b = acquire_in b.state now b

unfoldable pub record_success : Breaker → Breaker
record_success b = record b { failures = 0; half_open_in_flight = false; state = closed }

-- A failure outside a probe.
counted : ℕ → Breaker → Breaker
counted now b =
    let n = b.failures + 1 in
    if leb b.threshold n
    then record b { half_open_in_flight = false; failures = n; state = opened; opened_at = now }
    else record b { half_open_in_flight = false; failures = n }

failure_in : CircuitState → ℕ → Breaker → Breaker
unfolding counted
failure_in half_open now b = record b {
  half_open_in_flight = false;
  state = opened;
  opened_at = now;
}
failure_in closed now b = counted now b
failure_in opened now b = counted now b

unfoldable pub record_failure : ℕ → Breaker → Breaker
unfolding failure_in
record_failure now b = failure_in b.state now b
