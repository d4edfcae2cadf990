-- ===== src/Clients/Retry.antt =====
-- backend/src/api/clients/retry.py: repeats with a growing delay. What the call gives at each
-- attempt is the parameter `fn`. Delays are in milliseconds.
pub mod Attempts
use kb_concierge.Prelude.{
  ℕ, zero, suc, ◌+◌, ◌-◌, ◌*◌, ◌^◌, Bool, true, false, List, [], ◌∷◌, if◌then◌else◌, leb,
}

pub record RetryPolicy : Type 0 where
  pub attempts : ℕ
  pub base_delay : ℕ
  pub max_delay : ℕ

-- `RetryPolicy.backoff`; the first repeat is number 1.
unfoldable pub backoff : RetryPolicy → ℕ → ℕ
backoff p attempt =
    let delay = p.base_delay * 2 ^ (attempt - 1) in
    if leb delay p.max_delay then delay else p.max_delay

-- What an attempt gives: a value, an exception of `retry_on`, or another one.
pub data Attempt {ℓ} (A : Type ℓ) : Type ℓ where
  gave : A → Attempt A
  retryable : Attempt A
  fatal : Attempt A

-- What the whole gives, with the number of attempts and the delays slept.
pub record Retried {ℓ} (A : Type ℓ) : Type ℓ where
  pub outcome : Attempt A
  pub calls : ℕ
  pub delays : List ℕ

module _ {ℓ} {A : Type ℓ} (policy : RetryPolicy) (fn : ℕ → Attempt A) where
  abbrev once : Attempt A → Retried A
  once a = record { outcome = a; calls = 1; delays = [] }

  abbrev slept : ℕ → Retried A → Retried A
  slept d r = record { outcome = r.outcome; calls = suc r.calls; delays = d ∷ r.delays }

  -- One turn of the loop: `rest` is what its continuation gives.
  unfoldable pub continued : ℕ → Attempt A → Retried A → Retried A
  continued attempt (gave a) rest = once (gave a)
  continued attempt fatal rest = once fatal
  continued attempt retryable rest = slept (backoff policy attempt) rest

  -- The loop from an attempt on, with the number of repeats that are left.
  unfoldable pub attempts_from : ℕ → ℕ → Retried A
  attempts_from attempt zero = once (fn attempt)
  attempts_from attempt (suc left) =
      continued attempt (fn attempt) (attempts_from (attempt + 1) left)

  -- `retry_async`; a policy has at least one attempt.
  unfoldable pub retry_async : Retried A
  retry_async = attempts_from 1 (policy.attempts - 1)
