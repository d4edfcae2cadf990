-- ===== src/Clients/Breaker/States.antt =====
-- The states that a breaker reaches.
use kb_concierge.Prelude.{ℕ, ◌+◌, ◌≤◌, ◌<◌, ◌≡◌, refl, Bool, true, false, List, [], ◌∷◌, leb, arith}
use kb_concierge.Clients.Breaker.{
  CircuitState, closed, opened, half_open, Breaker, fresh, acquire, record_success, record_failure,
  acquire_in, failure_in, counted,
}

le→leb : (a b : ℕ) → a ≤ b → leb a b ≡ true
le→leb a b h = ground arith

-- The operations on a breaker, in any order and from any number of callers.
pub data Event : Type 0 where
  acquired : ℕ → Event
  succeeded : Event
  failed : ℕ → Event

unfoldable pub step : Event → Breaker → Breaker
step (acquired now) b = (acquire now b).1
step succeeded b = record_success b
step (failed now) b = record_failure now b

unfoldable pub after : List Event → Breaker → Breaker
unfolding step
after [] b = b
after (e ∷ es) b = after es (step e b)

abbrev pub probing : CircuitState → Bool
probing half_open = true
probing _ = false

-- A probe is in flight exactly in the half-open state, and a closed breaker has counted fewer
-- failures than the threshold.
pub IsSound : Breaker → Type 0
IsSound b =
    (b.half_open_in_flight ≡ probing b.state) × (b.state ≡ closed → b.failures < b.threshold)

acquire_in-IsSound :
    (s : CircuitState) (now : ℕ) (b : Breaker)
    → b.state ≡ s
    → IsSound b
    → IsSound (acquire_in s now b).1
unfolding acquire_in IsSound
acquire_in-IsSound s now b e h = ground arith

failure_in-IsSound :
    (s : CircuitState) (now : ℕ) (b : Breaker)
    → b.state ≡ s
    → 1 ≤ b.threshold
    → IsSound b
    → IsSound (failure_in s now b)
unfolding failure_in counted IsSound
failure_in-IsSound s now b e t h = ground arith

step-threshold : (e : Event) (b : Breaker) → (step e b).threshold ≡ b.threshold
unfolding step acquire acquire_in record_success record_failure failure_in counted
step-threshold (acquired now) b = ground arith
step-threshold succeeded b = refl
step-threshold (failed now) b = ground arith

step-IsSound : (e : Event) (b : Breaker) → 1 ≤ b.threshold → IsSound b → IsSound (step e b)
unfolding step acquire record_success record_failure IsSound
step-IsSound (acquired now) b t h = acquire_in-IsSound b.state now b refl h
step-IsSound succeeded b t h = (refl, λ e. t)
step-IsSound (failed now) b t h = failure_in-IsSound b.state now b refl t h

-- Whatever calls a breaker has seen, in any order, a probe is in flight exactly in the half-open
-- state, and while it is closed fewer failures than the threshold stand on its count.
pub after-IsSound :
    (es : List Event) (b : Breaker) → 1 ≤ b.threshold → IsSound b → IsSound (after es b)
unfolding after
after-IsSound [] b t h = h
after-IsSound (e ∷ es) b t h =
    after-IsSound es (step e b) (ground (arith, step-threshold e b)) (step-IsSound e b t h)

fresh-IsSound : (n t : ℕ) → 1 ≤ n → IsSound (fresh n t)
unfolding IsSound
fresh-IsSound n t h = (refl, λ e. h)

probe-alone : (b : Breaker) (now : ℕ) → b.state ≡ half_open → IsSound b → (acquire now b).0 ≡ false
unfolding acquire acquire_in IsSound
probe-alone b now e s = ground arith

-- A breaker that was made with a threshold of at least one admits no further call in the half-open
-- state, whatever calls and results came before.
pub acquire-one_probe :
    (n t : ℕ) (es : List Event) (now : ℕ)
    → 1 ≤ n
    → (after es (fresh n t)).state ≡ half_open
    → (acquire now (after es (fresh n t))).0 ≡ false
acquire-one_probe n t es now h p =
    probe-alone (after es (fresh n t)) now p (after-IsSound es (fresh n t) h (fresh-IsSound n t h))

-- From an open breaker a call is admitted exactly from the end of the reset time on.
pub acquire-opened :
    (b : Breaker) (now : ℕ)
    → b.state ≡ opened
    → (acquire now b).0 ≡ leb (b.opened_at + b.reset_timeout) now
unfolding acquire acquire_in
acquire-opened b now e = ground arith

abbrev pub with_probe : Breaker → Breaker
with_probe b = record b { state = half_open; half_open_in_flight = true }

pub acquire-probe :
    (b : Breaker) (now : ℕ)
    → b.state ≡ opened
    → b.opened_at + b.reset_timeout ≤ now
    → acquire now b ≡ (true, with_probe b)
unfolding acquire acquire_in
acquire-probe b now e h = rw e (rw (le→leb _ _ h) refl)

pub acquire-with_probe : (b : Breaker) (now : ℕ) → (acquire now (with_probe b)).0 ≡ false
unfolding acquire acquire_in
acquire-with_probe b now = refl
