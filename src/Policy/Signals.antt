-- ===== src/Policy/Signals.antt =====
-- backend/src/api/policy/signals.py: the hard signals of a masked text.
use kb_concierge.Prelude.{String, Bool, ◌||◌, List, [], ◌∷◌, Codes, lower, any_in}

abbrev pub money_action_needles : List String
money_action_needles =
    "оплат" ∷ "перевод денег" ∷ "перечисл" ∷ "выплат" ∷ "верните деньги" ∷ "вернуть деньги"
    ∷ "возврат денег" ∷ "предоплат" ∷ "счёт на оплату" ∷ []

abbrev pub money_topic_needles : List String
money_topic_needles = "комисси" ∷ "депозит" ∷ []

abbrev pub claim_needles : List String
claim_needles =
    "претензи" ∷ "жалоб" ∷ "пожаловат" ∷ "спор" ∷ "компенсаци" ∷ "гаранти" ∷ "страхов" ∷ "ущерб"
    ∷ "обман" ∷ "некачествен" ∷ []

abbrev pub irreversible_needles : List String
irreversible_needles =
    "отмен" ∷ "расторг" ∷ "закрыть претензи" ∷ "изменить договор" ∷ "удалить аккаунт"
    ∷ "отказ от заказа" ∷ []

abbrev pub sensitive_needles : List String
sensitive_needles = "суд" ∷ "юрист" ∷ "иск " ∷ "неустойк" ∷ "штраф" ∷ "налог" ∷ "судебн" ∷ []

pub record TurnSignals : Type 0 where
  pub money_action : Bool
  pub money_topic : Bool
  pub claim_or_dispute : Bool
  pub irreversible : Bool
  pub sensitive : Bool

unfoldable pub money : TurnSignals → Bool
money s = s.money_action || s.money_topic

signals_of : Codes → TurnSignals
signals_of text = record {
  money_action = any_in text money_action_needles;
  money_topic = any_in text money_topic_needles;
  claim_or_dispute = any_in text claim_needles;
  irreversible = any_in text irreversible_needles;
  sensitive = any_in text sensitive_needles;
}

unfoldable pub extract_signals : String → TurnSignals
unfolding signals_of
extract_signals masked_text = signals_of (lower masked_text)
