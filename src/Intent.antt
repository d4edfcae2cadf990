-- ===== src/Intent.antt =====
-- backend/src/api/intent/enums.py: the classes of a request.
pub mod Keywords
pub mod Scores
pub mod Slots
pub mod Engine
pub mod Yandex
use kb_concierge.Prelude.{ℕ, String, Bool, List, [], ◌∷◌, ◌==◌}

pub data Intent : Type 0 where
  info_qa partner_service support_issue status_query pricing_query : Intent
  emergency non_standard small_talk out_of_scope : Intent

-- The place of the class in the enum; two members are the same exactly if their places are.
abbrev pub place : Intent → ℕ
place info_qa = 0
place partner_service = 1
place support_issue = 2
place status_query = 3
place pricing_query = 4
place emergency = 5
place non_standard = 6
place small_talk = 7
place out_of_scope = 8

-- `a is b`
abbrev pub same : Intent → Intent → Bool
same a b = place a == place b

-- `intent.value`
abbrev pub value : Intent → String
value info_qa = "INFO_QA"
value partner_service = "PARTNER_SERVICE"
value support_issue = "SUPPORT_ISSUE"
value status_query = "STATUS_QUERY"
value pricing_query = "PRICING_QUERY"
value emergency = "EMERGENCY"
value non_standard = "NON_STANDARD"
value small_talk = "SMALL_TALK"
value out_of_scope = "OUT_OF_SCOPE"

-- `for intent in Intent`
abbrev pub members : List Intent
members =
    info_qa ∷ partner_service ∷ support_issue ∷ status_query ∷ pricing_query ∷ emergency
    ∷ non_standard ∷ small_talk ∷ out_of_scope ∷ []
