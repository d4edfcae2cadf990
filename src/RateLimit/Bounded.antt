-- ===== src/RateLimit/Bounded.antt =====
-- How many requests pass.
use kb_concierge.Prelude.{
  ℕ, suc, ◌+◌, ◌-◌, ◌*◌, ◌≤◌, ◌≡◌, Bool, true, false, List, [], ◌∷◌, arith, if◌then◌else◌, sym, ap,
  ◌∙◌, subst,
}
use native.Mathlib.Nat.{add-mul}
use kb_concierge.RateLimit.{token, spend}

-- The number of requests that pass, of those at some times.
pub passed : ℕ → ℕ → ℕ × ℕ → List ℕ → ℕ
passed capacity rate b [] = 0
passed capacity rate b (t ∷ ts) =
    let (ok, b') = spend capacity rate t b in
    let rest = passed capacity rate b' ts in if ok then suc rest else rest

-- The times do not run backwards from a first one up to a last one.
unfoldable pub Ascends : ℕ → List ℕ → ℕ → Type 0
Ascends first [] last = first ≤ last
Ascends first (t ∷ ts) last = (first ≤ t) × Ascends t ts last

spend-cost :
    (capacity rate now tokens last : ℕ)
    → last ≤ now
    → let (ok, (left, at_)) = spend capacity rate now (tokens, last) in
      (at_ ≡ now) × (left + (if ok then token else 0) ≤ tokens + (now - last) * rate)
unfolding spend
spend-cost capacity rate now tokens last h = (ground arith, ground arith)

ends-after : (first : ℕ) (ts : List ℕ) (end_ : ℕ) → Ascends first ts end_ → first ≤ end_
unfolding Ascends
ends-after first [] end_ h = h
ends-after first (t ∷ ts) end_ (h, rest) = ground (arith, h, ends-after t ts end_ rest)

span-split : (a b c r : ℕ) → a ≤ b → b ≤ c → (b - a) * r + (c - b) * r ≡ (c - a) * r
span-split a b c r h g = sym (add-mul (b - a) (c - b) r) ∙ ap (λ n. n * r) (omega arith)

-- One request, and those that follow it.
passed-then :
    (capacity rate tokens last t end_ : ℕ) (ts : List ℕ) (r : Bool × (ℕ × ℕ))
    → last ≤ t
    → t ≤ end_
    → r.1.1 ≡ t
    → r.1.0 + (if r.0 then token else 0) ≤ tokens + (t - last) * rate
    → passed capacity rate r.1 ts * token ≤ r.1.0 + (end_ - r.1.1) * rate
    → (if r.0 then suc (passed capacity rate r.1 ts) else passed capacity rate r.1 ts) * token
      ≤ tokens + (end_ - last) * rate
passed-then capacity rate tokens last t end_ ts (true, (left, at_)) h g e cost rest =
    grind (arith, span-split last t end_ rate h g)
passed-then capacity rate tokens last t end_ ts (false, (left, at_)) h g e cost rest =
    grind (arith, span-split last t end_ rate h g)

-- The requests that pass in an ascending run, priced at a token each, cost no more than what the
-- bucket held and what flowed in since.
pub passed-bounded :
    (capacity rate tokens last : ℕ) (ts : List ℕ) (end_ : ℕ)
    → Ascends last ts end_
    → passed capacity rate (tokens, last) ts * token ≤ tokens + (end_ - last) * rate
unfolding passed Ascends
passed-bounded capacity rate tokens last [] end_ h = omega arith
passed-bounded capacity rate tokens last (t ∷ ts) end_ (h, rest) =
    let r = spend capacity rate t (tokens, last) in
    let cost = spend-cost capacity rate t tokens last h in
    passed-then capacity rate tokens last t end_ ts r h (ends-after t ts end_ rest) cost.0 cost.1 (
      passed-bounded capacity rate r.1.0 r.1.1 ts end_
        (subst (λ a. Ascends a ts end_) (sym cost.0) rest))
