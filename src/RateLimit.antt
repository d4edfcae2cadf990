-- ===== src/RateLimit.antt =====
-- backend/src/api/sessions/ratelimit.py: a bucket of tokens per key. The source counts tokens in
-- floating point; here a token is 60000 parts, so that a refill of `rate` tokens a minute is
-- exactly `rate` parts a millisecond. Times are in milliseconds and do not run backwards.
pub mod Bounded
use kb_concierge.Prelude.{
  ℕ, ◌+◌, ◌-◌, ◌*◌, String, Bool, true, false, Option, none, some, if◌then◌else◌, ltb, leb, Dict,
  lookup, insert,
}

pub record RateLimiter : Type 0 where
  pub capacity : ℕ
  pub rate : ℕ
  pub enabled : Bool
  pub state : Dict (ℕ × ℕ)

abbrev pub token : ℕ
token = 60000

abbrev pub least : ℕ → ℕ → ℕ
least a b = if leb a b then a else b

-- The parts and the time of a bucket.
unfoldable pub spend : ℕ → ℕ → ℕ → ℕ × ℕ → Bool × (ℕ × ℕ)
spend capacity rate now (tokens, last) =
    let filled = least (capacity * token) (tokens + (now - last) * rate) in
    if ltb filled token then (false, (filled, now)) else (true, (filled - token, now))

bucket : RateLimiter → ℕ → Option (ℕ × ℕ) → ℕ × ℕ
bucket r now none = (r.capacity * token, now)
bucket r now (some b) = b

-- `allow`
unfoldable pub allow : String → ℕ → RateLimiter → Bool × RateLimiter
unfolding bucket
allow key now r =
    let (ok, b) = spend r.capacity r.rate now (bucket r now (lookup key r.state)) in
    if r.enabled then (ok, record r { state = insert key b r.state }) else (true, r)
