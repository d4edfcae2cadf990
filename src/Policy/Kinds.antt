-- ===== src/Policy/Kinds.antt =====
-- backend/src/api/policy/enums.py: what the agent does on a turn, and why.
use kb_concierge.Prelude.{String, Bool, true, false, Option, none, some, str_eq, if◌then◌else◌}

pub data AgentActionKind : Type 0 where
  answer tool_call clarify handoff : AgentActionKind

pub data DecisionReason : Type 0 where
  autonomous_ok paid_needs_confirmation low_confidence low_confidence_exhausted : DecisionReason
  mandatory_handoff_claim money_never_autonomous irreversible_handoff : DecisionReason
  sensitive_handoff non_standard_escalation small_talk out_of_scope : DecisionReason

abbrev pub reason_value : DecisionReason → String
reason_value autonomous_ok = "AUTONOMOUS_OK"
reason_value paid_needs_confirmation = "PAID_NEEDS_CONFIRMATION"
reason_value low_confidence = "LOW_CONFIDENCE"
reason_value low_confidence_exhausted = "LOW_CONFIDENCE_EXHAUSTED"
reason_value mandatory_handoff_claim = "MANDATORY_HANDOFF_CLAIM"
reason_value money_never_autonomous = "MONEY_NEVER_AUTONOMOUS"
reason_value irreversible_handoff = "IRREVERSIBLE_HANDOFF"
reason_value sensitive_handoff = "SENSITIVE_HANDOFF"
reason_value non_standard_escalation = "NON_STANDARD_ESCALATION"
reason_value small_talk = "SMALL_TALK"
reason_value out_of_scope = "OUT_OF_SCOPE"

-- `AgentActionKind(text)`; a text that is no value raises `ValueError`.
unfoldable pub action_kind : String → Option AgentActionKind
action_kind s =
    if str_eq s "ANSWER"
    then some answer
    else if str_eq s "TOOL_CALL"
    then some tool_call
    else if str_eq s "CLARIFY"
    then some clarify
    else if str_eq s "HANDOFF"
    then some handoff
    else none

-- `outcome in (AgentActionKind.ANSWER, AgentActionKind.TOOL_CALL)`
abbrev pub acts : AgentActionKind → Bool
acts answer = true
acts tool_call = true
acts clarify = false
acts handoff = false
