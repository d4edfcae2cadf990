-- ===== src/Sessions/Switch.antt =====
-- `_detect_category_switch` of backend/src/api/sessions/service.py: the user corrects the category of an order.
use kb_concierge.Prelude.{
  ℕ, String, Bool, ◌&&◌, ◌||◌, not, Option, none, some, [], ◌∷◌, keep, if◌then◌else◌, str_eq, ltb,
  Codes, lower, Dict, lookup,
}
use kb_concierge.Intent.Scores.{category_scores, negates_category, best_of}
use kb_concierge.Orders.{is_order_category}

unfoldable pub other : String → String × ℕ → Bool
other current (c, s) = is_order_category c && (not (str_eq c current) && ltb 0 s)

score_in : String → Dict ℕ → ℕ
score_in c scores = elim (lookup c scores) [ none ↦ 0 | some n ↦ n ]

unfoldable pub switch_to : String → Codes → ℕ → Dict ℕ → Option String
switch_to current text current_score [] = none
switch_to current text current_score (o ∷ others) =
    let best = best_of o others in
    if ltb current_score best.1 || negates_category text current then some best.0 else none

unfoldable pub detect_category_switch : String → String → Option String
unfolding score_in
detect_category_switch current masked =
    let text = lower masked in
    let scores = category_scores text in
    switch_to current text (score_in current scores) (keep (other current) scores)
