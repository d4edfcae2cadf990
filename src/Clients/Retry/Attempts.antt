-- ===== src/Clients/Retry/Attempts.antt =====
-- How often a call is made, and which result counts.
use kb_concierge.Prelude.{
  ℕ, zero, suc, ◌+◌, ◌-◌, ◌≤◌, ◌<◌, ◌≡◌, refl, [], ◌∷◌, length, All, arith, ap, ◌∙◌,
}
use kb_concierge.Clients.Retry.{
  RetryPolicy, backoff, Attempt, gave, retryable, fatal, Retried, continued, attempts_from,
  retry_async,
}

backoff-limit : (p : RetryPolicy) (n : ℕ) → backoff p n ≤ p.max_delay
unfolding backoff
backoff-limit p n = ground arith

module _ {ℓ} {A : Type ℓ} (policy : RetryPolicy) (fn : ℕ → Attempt A) where
  -- The attempts of a loop: it ends with the last one, at most `left` repeats after the first;
  -- every one before the last may be repeated; and one that may be is the last only if no repeat
  -- is left. Between two attempts it sleeps, never longer than the limit.
  pub Ends : ℕ → ℕ → Retried A → Type ℓ
  Ends attempt left r =
      (n : ℕ) × ((r.calls ≡ suc n)
        × ((n ≤ left)
            × ((fn (attempt + n) ≡ r.outcome)
                × (((i : ℕ) → i < n → fn (attempt + i) ≡ retryable)
                    × ((r.outcome ≡ retryable → n ≡ left)
                        × ((length r.delays ≡ n) × All (λ d. d ≤ policy.max_delay) r.delays))))))

  Ends-once :
      (attempt left : ℕ) (a : Attempt A)
      → fn attempt ≡ a
      → (a ≡ retryable → 0 ≡ left)
      → Ends attempt left (record { outcome = a; calls = 1; delays = [] })
  unfolding Ends
  Ends-once attempt left a e h = (
    0,
    (
      refl,
      (omega arith, (ap fn (omega arith) ∙ e, (λ i lt. absurd (omega arith), (h, (refl, tt))))),
    ),
  )

  Ends-slept :
      (attempt left : ℕ) (r : Retried A)
      → fn attempt ≡ retryable
      → Ends (attempt + 1) left r
      → Ends attempt (suc left) (record {
        outcome = r.outcome;
        calls = suc r.calls;
        delays = backoff policy attempt ∷ r.delays;
      })
  unfolding Ends
  Ends-slept attempt left r e (n, (c, (le, (last, (before, (ended, (slept, short))))))) = (
    suc n,
    (
      ap suc c,
      (
        omega arith,
        (
          ap fn (omega arith) ∙ last,
          (earlier, (λ q. ap suc (ended q), (ap suc slept, (backoff-limit policy attempt, short)))),
        ),
      ),
    ),
  )
    where
      earlier : (i : ℕ) → i < suc n → fn (attempt + i) ≡ retryable
      earlier zero lt = ap fn (omega arith) ∙ e
      earlier (suc i) lt = ap fn (omega arith) ∙ before i (omega arith)

  continued-Ends :
      (attempt left : ℕ) (a : Attempt A) (rest : Retried A)
      → fn attempt ≡ a
      → Ends (attempt + 1) left rest
      → Ends attempt (suc left) (continued policy fn attempt a rest)
  unfolding continued
  continued-Ends attempt left (gave a) rest e h = Ends-once attempt (suc left) (gave a) e (λ h. cc)
  continued-Ends attempt left fatal rest e h = Ends-once attempt (suc left) fatal e (λ h. cc)
  continued-Ends attempt left retryable rest e h = Ends-slept attempt left rest e h

  attempts_from-Ends : (attempt left : ℕ) → Ends attempt left (attempts_from policy fn attempt left)
  unfolding attempts_from
  attempts_from-Ends attempt zero = Ends-once attempt 0 (fn attempt) refl (λ h. refl)
  attempts_from-Ends attempt (suc left) =
      continued-Ends attempt left (fn attempt) _ refl (attempts_from-Ends (attempt + 1) left)

  -- The loop of repeats ends, after at most `attempts` calls: with the first attempt that is not
  -- to be repeated, whose result it gives, or with the last one; before each repeat it sleeps, and
  -- never longer than the limit of the policy.
  pub retry_async-Ends : Ends 1 (policy.attempts - 1) (retry_async policy fn)
  unfolding retry_async
  retry_async-Ends = attempts_from-Ends 1 (policy.attempts - 1)
