-- ===== src/Clients/Request/Stuck.antt =====
-- What a request leaves of the breaker.
use kb_concierge.Prelude.{ℕ, ◌≡◌, refl, false, ◌≤◌, ◌+◌}
use kb_concierge.Clients.Breaker.{Breaker, opened, acquire}
use kb_concierge.Clients.Breaker.States.{acquire-probe, acquire-with_probe}
use kb_concierge.Clients.Retry.{RetryPolicy, Attempt, fatal, retry_async}
use kb_concierge.Clients.Request.{Sent, circuit_open, raised, attempt_of, concluded, request}

module _ (policy : RetryPolicy) (send : ℕ → Sent) (start end_ : ℕ) (b : Breaker) where
  abbrev got : Attempt ℕ
  got = (retry_async policy (λ i. attempt_of (send i))).outcome

  -- A request that the breaker does not admit reaches no service, and leaves the breaker.
  request-refused :
      (acquire start b).0 ≡ false → (request policy send start end_ b).0 ≡ circuit_open
  unfolding request
  request-refused h = rw h refl

  -- If the probe of an open breaker ends with an exception that is not to be repeated, then the
  -- exception is passed on, the breaker stays half-open with its probe in flight, and from then on
  -- no request is admitted, however late it comes.
  pub request-stuck :
      b.state ≡ opened
      → b.opened_at + b.reset_timeout ≤ start
      → got ≡ fatal
      → let (outcome, b') = request policy send start end_ b in
        (outcome ≡ raised) × ((now : ℕ) → (acquire now b').0 ≡ false)
  unfolding request concluded
  request-stuck s t f = rw (acquire-probe b start s t) (rw f (refl, acquire-with_probe b))
