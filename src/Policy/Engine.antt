-- ===== src/Policy/Engine.antt =====
-- backend/src/api/policy/engine.py: the decision on a turn.
use kb_concierge.Prelude.{ℕ, String, Bool, false, ◌&&◌, not, List, [], ltb, if◌then◌else◌, Json}
use kb_concierge.Intent.{Intent, same}
use kb_concierge.Policy.Kinds.{AgentActionKind, answer, clarify, handoff, DecisionReason}
use kb_concierge.Policy.Signals.{TurnSignals}
use kb_concierge.Policy.Matrix.{AutonomyMatrix, IntentRule, rule_for}

pub record PolicyDecision : Type 0 where
  pub outcome : AgentActionKind
  pub reason : DecisionReason
  pub policy_version : String
  pub allowed_tools : List Json
  pub requires_confirmation : Bool

-- `PolicyDecision(outcome, reason, version)`
abbrev pub plain : AgentActionKind → DecisionReason → String → PolicyDecision
plain outcome reason version = record {
  outcome = outcome;
  reason = reason;
  policy_version = version;
  allowed_tools = [];
  requires_confirmation = false;
}

abbrev by_rule : IntentRule → String → PolicyDecision
by_rule rule version = record {
  outcome = rule.autonomous;
  reason =
      if rule.requires_confirmation
      then DecisionReason.paid_needs_confirmation
      else DecisionReason.autonomous_ok;
  policy_version = version;
  allowed_tools = rule.allowed_tools;
  requires_confirmation = rule.requires_confirmation;
}

unfoldable pub decide : AutonomyMatrix → Intent → ℕ → TurnSignals → PolicyDecision
decide m intent confidence signals =
    let rule = rule_for m intent in
    let version = m.version in
    if signals.money_action
    then plain handoff DecisionReason.money_never_autonomous version
    else if signals.money_topic && not (same intent Intent.pricing_query)
    then plain handoff DecisionReason.money_never_autonomous version
    else if signals.claim_or_dispute
    then plain handoff DecisionReason.mandatory_handoff_claim version
    else if signals.irreversible
    then plain handoff DecisionReason.irreversible_handoff version
    else if same intent Intent.non_standard
    then plain handoff DecisionReason.non_standard_escalation version
    else if same intent Intent.info_qa && signals.sensitive
    then plain handoff DecisionReason.sensitive_handoff version
    else if same intent Intent.small_talk
    then plain answer DecisionReason.small_talk version
    else if same intent Intent.out_of_scope
    then plain answer DecisionReason.out_of_scope version
    else if rule.gated_by_confidence && ltb confidence m.confidence_threshold
    then plain clarify DecisionReason.low_confidence version
    else by_rule rule version
