-- ===== src/Intent/Engine/Rules.antt =====
-- When the rules decide a class, and when the provider does.
use kb_concierge.Prelude.{
  ℕ, ◌≤◌, String, ◌≡◌, refl, sym, subst, ◌⊎◌, inl, inr, some, List, [], ◌∷◌, keep, lower, All,
  arith,
}
use kb_concierge.Intent.{Intent}
use kb_concierge.Intent.Scores.{intent_scores, best_of, better}
use kb_concierge.Intent.Slots.{extract_slots}
use kb_concierge.Intent.Engine.{
  IntentOutcome, null_llm_provider, rules_confidence, ambiguous_confidence, hit, by_rules,
  without_llm, by_llm, classify_by, classify,
}

abbrev Scores : Type 0
Scores = List (Intent × ℕ)

-- A pair of the list.
abbrev In : Intent × ℕ → Scores → Type 0
In x [] = ⊥
In x (y ∷ ys) = (x ≡ y) ⊎ In x ys

abbrev AtMost : ℕ → Intent × ℕ → Type 0
AtMost n s = s.1 ≤ n

-- One of the pairs, with the greatest score, which is not nothing.
abbrev IsBest : Intent × ℕ → Scores → Type 0
IsBest b scores = In b scores × All (AtMost b.1) scores × (1 ≤ b.1)

better-cases : (b c : Intent × ℕ) → (better b c ≡ b) ⊎ (better b c ≡ c)
unfolding better
better-cases b c = ground arith

better-AtMost : (b c : Intent × ℕ) → (b.1 ≤ (better b c).1) × (c.1 ≤ (better b c).1)
unfolding better
better-AtMost b c = ground arith

best_of-In : (b : Intent × ℕ) (xs : Scores) → In (best_of b xs) (b ∷ xs)
unfolding best_of
best_of-In b [] = inl refl
best_of-In b (c ∷ xs) = ground (arith, best_of-In (better b c) xs, better-cases b c)

All-AtMost : (m n : ℕ) (xs : Scores) → m ≤ n → All (AtMost m) xs → All (AtMost n) xs
All-AtMost m n [] le h = tt
All-AtMost m n (x ∷ xs) le h = (omega (arith, h.0), All-AtMost m n xs le h.1)

best_of-AtMost : (b : Intent × ℕ) (xs : Scores) → All (AtMost (best_of b xs).1) (b ∷ xs)
unfolding best_of
best_of-AtMost b [] = (omega arith, tt)
best_of-AtMost b (c ∷ xs) = (
  omega (arith, (best_of-AtMost (better b c) xs).0, (better-AtMost b c).0),
  (
    omega (arith, (best_of-AtMost (better b c) xs).0, (better-AtMost b c).1),
    (best_of-AtMost (better b c) xs).1,
  ),
)

-- A score that is not a hit is nothing, so a bound of the hits bounds all.
keep-AtMost : (n : ℕ) (scores : Scores) → All (AtMost n) (keep hit scores) → All (AtMost n) scores
unfolding hit
keep-AtMost n [] h = tt
keep-AtMost n (s ∷ scores) h = ground (arith, keep-AtMost n scores)

In-keep : (b : Intent × ℕ) (scores : Scores) → In b (keep hit scores) → In b scores × (1 ≤ b.1)
unfolding hit
In-keep b [] h = absurd h
In-keep b (s ∷ scores) h = ground (arith, In-keep b scores)

-- What the rules alone may answer for a list of scores: nothing was hit, and the request is out of
-- scope with no confidence; or the class has the greatest score, with the confidence of a single
-- class or of an ambiguous text.
abbrev pub IsRuled : Scores → IntentOutcome → Type 0
IsRuled scores o =
    (All (AtMost 0) scores × (o.intent ≡ Intent.out_of_scope) × (o.confidence ≡ 0))
    ⊎ ((n : ℕ) × IsBest (o.intent, n) scores
        × ((o.confidence ≡ rules_confidence) ⊎ (o.confidence ≡ ambiguous_confidence)))

best_of-IsBest :
    (scores : Scores) (s : Intent × ℕ) (matched : Scores)
    → keep hit scores ≡ s ∷ matched
    → IsBest (best_of s matched) scores
best_of-IsBest scores s matched e =
    let b = best_of s matched in
    let held = In-keep b scores (subst (λ l. In b l) (sym e) (best_of-In s matched)) in
    (
      held.0,
      keep-AtMost b.1 scores (subst (λ l. All (AtMost b.1) l) (sym e) (best_of-AtMost s matched)),
      held.1,
    )

module _ (show : ℕ → String) (masked : String) where
  abbrev scores : Scores
  scores = intent_scores (lower masked)

  ruled :
      (matched : Scores)
      → keep hit scores ≡ matched
      → (o : IntentOutcome) × (classify_by show null_llm_provider masked (lower masked) matched
          ≡ some o)
        × IsRuled scores o
  unfolding classify_by by_llm without_llm by_rules best_of
  ruled [] e = (
    without_llm show (lower masked) [],
    refl,
    inl (keep-AtMost 0 scores (subst (λ l. All (AtMost 0) l) (sym e) tt), refl, refl),
  )
  ruled (s ∷ []) e = (
    by_rules s.0 rules_confidence (extract_slots show (lower masked) s.0),
    refl,
    inr (s.1, best_of-IsBest scores s [] e, inl refl),
  )
  ruled (s ∷ u ∷ matched) e = (
    without_llm show (lower masked) (s ∷ u ∷ matched),
    refl,
    inr ((best_of s (u ∷ matched)).1, best_of-IsBest scores s (u ∷ matched) e, inr refl),
  )

  -- Without a language model a message is always classified. Either no keyword of any class occurs
  -- and the answer is out of scope with confidence 0, or the class has the greatest number of
  -- occurrences of all classes, which is not 0.
  pub classify-IsRuled :
      (o : IntentOutcome) × (classify show null_llm_provider masked ≡ some o) × IsRuled scores o
  unfolding classify
  classify-IsRuled = ruled (keep hit scores) refl
