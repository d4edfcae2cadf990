-- ===== src/Intent/Scores.antt =====
-- backend/src/api/intent/engine.py: the scores of the classes and of the categories, and the
-- negation of a category.
use kb_concierge.Prelude.{
  ℕ, zero, suc, ◌+◌, ◌-◌, String, Bool, true, false, ◌&&◌, ◌||◌, none, some, List, [], ◌∷◌, map,
  any, length, if◌then◌else◌, ltb, Codes, codes, is_prefix, after, is_space, Dict, lookup,
}
use kb_concierge.Intent.{Intent}
use kb_concierge.Intent.Keywords.{partner_category, class_keywords}

-- `t.count(p)` for a `p` of `suc n` characters: matches do not overlap. `skip` counts the
-- characters of a match that are still to pass.
unfoldable pub count_from : Codes → ℕ → ℕ → Codes → ℕ
count_from p n skip [] = 0
count_from p n (suc k) (c ∷ t) = count_from p n k t
count_from p n zero (c ∷ t) = elim (is_prefix p (c ∷ t)) [
  | true ↦ suc (count_from p n n t)
  | false ↦ count_from p n zero t
]

unfoldable pub count : Codes → Codes → ℕ
count p t = count_from p (length p - 1) 0 t

sum_counts : Codes → List String → ℕ
sum_counts text [] = 0
sum_counts text (k ∷ ks) = count (codes k) text + sum_counts text ks

score_of : Codes → String × List String → String × ℕ
unfolding sum_counts
score_of text (category, keywords) = (category, sum_counts text keywords)

unfoldable pub category_scores : Codes → Dict ℕ
unfolding score_of
category_scores text = map (score_of text) partner_category

drop_spaces : Codes → Codes
drop_spaces [] = []
drop_spaces (c ∷ t) = let rest = drop_spaces t in if is_space c then rest else c ∷ t

-- `\s+` and the keyword, at the start of a text; a keyword starts with no space.
spaced : Codes → Codes → Bool
unfolding drop_spaces
spaced kw [] = false
spaced kw (c ∷ t) = is_space c && is_prefix kw (drop_spaces t)

-- `re.search(r"не\s+" + re.escape(kw), text)`
negated : Codes → Codes → Bool
unfolding spaced
negated kw [] = false
negated kw (c ∷ t) =
    (is_prefix (codes "не") (c ∷ t) && spaced kw (after (codes "не") (c ∷ t))) || negated kw t

negated_word : Codes → String → Bool
unfolding negated
negated_word text k = negated (codes k) text

keywords_of : String → List String
keywords_of category = elim (lookup category partner_category) [ none ↦ [] | some ks ↦ ks ]

unfoldable pub negates_category : Codes → String → Bool
unfolding negated_word keywords_of
negates_category text category = any (negated_word text) (keywords_of category)

intent_score : Codes → Intent × List String → Intent × ℕ
unfolding sum_counts
intent_score text (intent, keywords) = (intent, sum_counts text keywords)

-- `_intent_scores`
unfoldable pub intent_scores : Codes → List (Intent × ℕ)
unfolding intent_score
intent_scores text = map (intent_score text) class_keywords

-- `max(d, key=…)` and the value there: the first of the largest. The first pair is apart.
unfoldable pub better {ℓ} : {K : Type ℓ} → K × ℕ → K × ℕ → K × ℕ
better b c = if ltb b.1 c.1 then c else b

unfoldable pub best_of {ℓ} : {K : Type ℓ} → K × ℕ → List (K × ℕ) → K × ℕ
best_of b [] = b
best_of b (c ∷ rest) = best_of (better b c) rest
