-- ===== src/Intent/Yandex/Clamped.antt =====
-- The confidence of every class, and what the classifier does when the model fails.
use kb_concierge.Prelude.{
  ℕ, ◌≤◌, String, ◌≡◌, refl, Option, none, some, List, [], ◌∷◌, subst, keep, length, Codes, lower,
  Json, null, bool, num, str, arr, obj, codes, arith,
}
use kb_concierge.Intent.{Intent}
use kb_concierge.Intent.Scores.{intent_scores}
use kb_concierge.Intent.Engine.{
  IntentOutcome, Said, understood, nothing, raised, null_llm_provider, hit, by_rules, without_llm,
  by_llm, classify_by, classify,
}
use kb_concierge.Intent.Engine.Rules.{classify-IsRuled}
use kb_concierge.Intent.Yandex.{
  Float, nan, negative, at, clamp, min_one, max_zero, below_one, above_zero, amount, Posted,
  other_error, intent_at, float_at, at_key, strip_fences, service_error, response, Settings,
  completion, built, read_data, read_text, parse, parsed, answered, build_llm_provider,
}

clamp-bounded : (c : Float) → clamp c ≤ 10000
unfolding clamp min_one max_zero below_one above_zero amount
clamp-bounded nan = omega arith
clamp-bounded negative = omega arith
clamp-bounded (at n) = ground arith

-- What a provider says has a confidence of at most 1.
IsSound : Said → Type 0
IsSound (understood llm) = llm.confidence ≤ 10000
IsSound nothing = Unit
IsSound raised = Unit

-- `ExternalServiceError`, or a status of 400 or more.
abbrev pub IsFailure : Posted → Type 0
IsFailure service_error = Unit
IsFailure other_error = ⊥
IsFailure (response code body) = 400 ≤ code

IsSure : Option IntentOutcome → Type 0
IsSure none = Unit
IsSure (some o) = o.confidence ≤ 10000

module _ (show : ℕ → String) (provider : String → Said) where
  by_llm-IsSure :
      (t : Codes) (matched : List (Intent × ℕ)) (said : Said)
      → IsSound said
      → IsSure (by_llm show provider t matched said)
  unfolding by_llm without_llm by_rules IsSound IsSure
  by_llm-IsSure t matched raised sound = tt
  by_llm-IsSure t [] nothing sound = omega arith
  by_llm-IsSure t (x ∷ xs) nothing sound = omega arith
  by_llm-IsSure t matched (understood llm) sound = sound

  classify_by-IsSure :
      (masked : String) (t : Codes) (matched : List (Intent × ℕ))
      → IsSound (provider masked)
      → IsSure (classify_by show provider masked t matched)
  unfolding classify_by by_rules IsSure
  classify_by-IsSure masked t [] sound = by_llm-IsSure t [] (provider masked) sound
  classify_by-IsSure masked t (x ∷ []) sound = omega arith
  classify_by-IsSure masked t (x ∷ y ∷ xs) sound =
      by_llm-IsSure t (x ∷ y ∷ xs) (provider masked) sound

classify_by-silent :
    (show : ℕ → String) (provider : String → Said) (masked : String) (t : Codes)
    (matched : List (Intent × ℕ))
    → provider masked ≡ nothing
    → classify_by show provider masked t matched
      ≡ classify_by show null_llm_provider masked t matched
unfolding classify_by by_llm
classify_by-silent show provider masked t [] e = rw e refl
classify_by-silent show provider masked t (x ∷ []) e = refl
classify_by-silent show provider masked t (x ∷ y ∷ xs) e = rw e refl

module _ (loads : Codes → Option Json) (to_float : Json → Option Float) (render : Json → String)
    (settings : Settings) where
  built-IsSound :
      (i : Option Intent) (c : Option Float) (slots : Option Json)
      → IsSound (built loads to_float render settings i c slots)
  unfolding built IsSound
  built-IsSound (some i) (some c) slots = clamp-bounded c
  built-IsSound (some i) none slots = tt
  built-IsSound none c slots = tt

  read_data-IsSound : (x : Option Json) → IsSound (read_data loads to_float render settings x)
  unfolding read_data IsSound
  read_data-IsSound none = tt
  read_data-IsSound (some x) =
      built-IsSound (intent_at loads to_float render settings (at_key "intent" x))
        (float_at loads to_float render settings (at_key "confidence" x)) (at_key "slots" x)

  read_text-IsSound : (x : Option Json) → IsSound (read_text loads to_float render settings x)
  unfolding read_text IsSound
  read_text-IsSound none = tt
  read_text-IsSound (some (str s)) = read_data-IsSound (loads (strip_fences (codes s)))
  read_text-IsSound (some null) = tt
  read_text-IsSound (some (bool b)) = tt
  read_text-IsSound (some (num n)) = tt
  read_text-IsSound (some (arr xs)) = tt
  read_text-IsSound (some (obj fs)) = tt

  parsed-IsSound : (body : Option Json) → IsSound (parsed loads to_float render settings body)
  unfolding parsed parse IsSound
  parsed-IsSound none = tt
  parsed-IsSound (some payload) = read_text-IsSound (completion payload)

  answered-IsSound : (posted : Posted) → IsSound (answered loads to_float render settings posted)
  unfolding answered IsSound
  answered-IsSound service_error = tt
  answered-IsSound other_error = tt
  answered-IsSound (response code body) = ground (arith, parsed-IsSound body)

  build_llm_provider-IsSound :
      (post : String → Posted) (masked : String)
      → IsSound (build_llm_provider loads to_float render settings post masked)
  unfolding build_llm_provider IsSound
  build_llm_provider-IsSound post masked = ground (arith, answered-IsSound (post masked))

  -- Whatever the model's service answers, and whatever is configured, a class that the classifier
  -- gives has a confidence of at most 1.
  pub classify-bounded :
      (show : ℕ → String) (post : String → Posted) (masked : String) (o : IntentOutcome)
      → classify show (build_llm_provider loads to_float render settings post) masked ≡ some o
      → o.confidence ≤ 10000
  unfolding classify IsSure
  classify-bounded show post masked o e = subst IsSure e (
      classify_by-IsSure show (build_llm_provider loads to_float render settings post) masked
        (lower masked) (keep hit (intent_scores (lower masked)))
        (build_llm_provider-IsSound post masked))

  answered-failure :
      (posted : Posted)
      → IsFailure posted
      → answered loads to_float render settings posted ≡ nothing
  unfolding answered
  answered-failure service_error h = refl
  answered-failure other_error h = absurd h
  answered-failure (response code body) h = ground arith

  build_llm_provider-failure :
      (post : String → Posted) (masked : String)
      → IsFailure (post masked)
      → build_llm_provider loads to_float render settings post masked ≡ nothing
  unfolding build_llm_provider
  build_llm_provider-failure post masked h = ground (arith, answered-failure (post masked) h)

  -- When the service is not available or answers with a status of 400 or more, the classifier gives
  -- what it gives without a model.
  pub classify-degrades :
      (show : ℕ → String) (post : String → Posted) (masked : String)
      → IsFailure (post masked)
      → classify show (build_llm_provider loads to_float render settings post) masked
        ≡ classify show null_llm_provider masked
  unfolding classify
  classify-degrades show post masked h =
      classify_by-silent show (build_llm_provider loads to_float render settings post) masked
        (lower masked) (keep hit (intent_scores (lower masked)))
        (build_llm_provider-failure post masked h)

  crashed-by :
      (show : ℕ → String) (provider : String → Said) (masked : String) (matched : List (Intent × ℕ))
      → provider masked ≡ raised
      → ¬ (length matched ≡ 1)
      → classify_by show provider masked (lower masked) matched ≡ none
  unfolding classify_by by_llm
  crashed-by show provider masked [] e h = rw e refl
  crashed-by show provider masked (x ∷ []) e h = absurd (h (omega arith))
  crashed-by show provider masked (x ∷ y ∷ xs) e h = rw e refl

  null_text-raises :
      (post : String → Posted) (masked : String) (payload : Json)
      → post masked ≡ response 200 (some payload)
      → completion payload ≡ some null
      → answered loads to_float render settings (post masked) ≡ raised
  unfolding answered parsed parse read_text
  null_text-raises post masked payload sent text = rw sent (rw text refl)

  -- When the service answers with status 200 and a completion whose text is null, and no class or
  -- more than one is hit, the message is not classified at all, although the rules alone classify
  -- every message.
  pub classify-null_text :
      (show : ℕ → String) (post : String → Posted) (masked : String) (payload : Json)
      → post masked ≡ response 200 (some payload)
      → completion payload ≡ some null
      → ¬ (length (keep hit (intent_scores (lower masked))) ≡ 1)
      → (classify show (λ m. answered loads to_float render settings (post m)) masked ≡ none)
        × ((o : IntentOutcome) × (classify show null_llm_provider masked ≡ some o))
  unfolding classify
  classify-null_text show post masked payload sent text several = (
    crashed-by show (λ m. answered loads to_float render settings (post m)) masked
        (keep hit (intent_scores (lower masked))) (null_text-raises post masked payload sent text)
        several,
    let ruled = classify-IsRuled show masked in (ruled.0, ruled.1),
  )
