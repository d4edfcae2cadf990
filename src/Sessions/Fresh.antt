-- ===== src/Sessions/Fresh.antt =====
-- A message with nothing pending in backend/src/api/sessions/service.py:
-- `_apply_low_confidence_streak` and `_route_new`.
use kb_concierge.Prelude.{
  ◌+◌, String, Bool, true, false, ◌&&◌, Option, none, some, List, [], ◌∷◌, if◌then◌else◌, leb, Dict,
  str, get_default,
}
use kb_concierge.Intent.{Intent, same, value}
use kb_concierge.Policy.Kinds.{
  AgentActionKind, handoff, answer, tool_call, clarify, DecisionReason, reason_value,
}
use kb_concierge.Policy.Engine.{PolicyDecision, plain}
use kb_concierge.Policy.Guardrails.{service_decide}
use kb_concierge.Reasoning.Calls.{ToolContext, LoopResult}
use kb_concierge.Reasoning.Detect.{Feedback, positive, negative, detect_feedback}
use kb_concierge.Reasoning.Loop.{Turn}
use kb_concierge.Orders.{is_order_category, missing_fields, extract_fields}
use kb_concierge.Intent.Engine.{IntentOutcome}
use kb_concierge.Sessions.Model.{AuditAction, AgentSession, OrderDraft, Trace}
use kb_concierge.Sessions.State.{
  Desk, St, Routed, routed, set_session, set_trace, add_note, add_event, refs_of, run_loop,
  action_kind, emit_action_event,
}
use kb_concierge.Sessions.Prefs.{merge_prefs}
use kb_concierge.Sessions.Order.{
  begin_order_flow, attach_order_summary, draft_of, pending_order, propose,
}

abbrev pub degraded_reply : String
degraded_reply = "Принял ваше сообщение, обрабатываю запрос."

abbrev pub feedback_reply : Feedback → String
feedback_reply positive = "Спасибо за оценку! Обращайтесь, если понадобится ещё."
feedback_reply negative =
    "Жаль, что не помогло. Если нужно — передам вопрос специалисту, напишите об этом."

abbrev pub is_clarify : AgentActionKind → Bool
is_clarify clarify = true
is_clarify _ = false

abbrev pub is_tool_call : AgentActionKind → Bool
is_tool_call tool_call = true
is_tool_call _ = false

abbrev pub is_low : DecisionReason → Bool
is_low DecisionReason.low_confidence = true
is_low _ = false

abbrev pub kind_value : AgentActionKind → String
kind_value answer = "ANSWER"
kind_value tool_call = "TOOL_CALL"
kind_value clarify = "CLARIFY"
kind_value handoff = "HANDOFF"

-- `_apply_low_confidence_streak`
unfoldable pub apply_low_confidence_streak :
    AgentSession → PolicyDecision → PolicyDecision × AgentSession
apply_low_confidence_streak session decision =
    let reset : AgentSession = record session { low_confidence_streak = 0 } in
    let next : AgentSession = record session {
      low_confidence_streak = session.low_confidence_streak + 1;
    } in
    if is_clarify decision.outcome && is_low decision.reason
    then if leb 1 session.low_confidence_streak
      then (plain handoff DecisionReason.low_confidence_exhausted decision.policy_version, reset)
      else (decision, next)
    else (decision, reset)

module _ (desk : Desk) where
  -- The category of an order that is asked for.
  unfoldable pub category_of : IntentOutcome → String
  category_of outcome =
      if same outcome.intent Intent.partner_service
      then desk.env.render (get_default "category" (str "") outcome.slots)
      else ""

  unfoldable pub fresh_turn : IntentOutcome → PolicyDecision → String → ToolContext → St → Turn
  fresh_turn outcome decision masked context st = record {
    decision = decision;
    intent = outcome.intent;
    query_masked = masked;
    context = context;
    confirmed = false;
    status_refs = refs_of st.session.last_refs;
  }

  -- The events for the subscriber, if there is one; the number in the first one, the confidence,
  -- is left out, since the model keeps payloads as texts.
  unfoldable pub emit_fresh : IntentOutcome → String → Option String → St → St
  emit_fresh outcome kind correlation_id st =
      if desk.webhooks
      then emit_action_event (value outcome.intent) kind correlation_id (
          add_event "agent.intent_classified" (value outcome.intent ∷ outcome.method ∷ [])
            correlation_id st)
      else st

  -- The draft that a proposal keeps for an edit.
  unfoldable pub draft_for : String → String → Option OrderDraft
  draft_for category masked =
      if is_order_category category
      then some (draft_of category (extract_fields desk.matches category masked) masked)
      else none

  fields_for : String → String → Dict String
  fields_for category masked =
      if is_order_category category then extract_fields desk.matches category masked else []

  -- The card, for an order.
  unfoldable pub with_card :
      IntentOutcome → String → String → ToolContext → LoopResult → St → LoopResult × St
  unfolding fields_for
  with_card outcome category masked context result st =
      if same outcome.intent Intent.partner_service
      then attach_order_summary desk result category (fields_for category masked) context st
      else (result, st)

  -- The turn of the loop, and what follows from its result.
  unfoldable pub run_fresh :
      IntentOutcome → PolicyDecision → String → String → ToolContext → St → Routed
  run_fresh outcome decision category masked context st =
      let (result, st1) = run_loop desk.env (fresh_turn outcome decision masked context st) st in
      let st2 =
        emit_fresh outcome (action_kind result decision.outcome) context.correlation_id
          (set_trace (Trace.routed_trace outcome decision result) st1) in
      let p = pending_order desk decision masked (draft_for category masked) outcome.intent in
      let st3 = propose desk result.awaiting_confirmation p (value outcome.intent) st2 in
      let (result', st4) = with_card outcome category masked context result st3 in
      routed result'.reply (some result') st4

  -- The first missing field of an order begins its collection.
  unfoldable pub begin_or_run :
      IntentOutcome
      → PolicyDecision
      → String
      → String
      → ToolContext
      → Dict String
      → List String
      → St
      → Routed
  begin_or_run outcome decision category masked context answers [] st =
      run_fresh outcome decision category masked context st
  begin_or_run outcome decision category masked context answers (k ∷ ks) st =
      begin_order_flow desk category answers k masked (Trace.asked_trace outcome decision k) st

  unfoldable pub route_decided : IntentOutcome → PolicyDecision → String → ToolContext → St → Routed
  route_decided outcome decision masked context st =
      let category = category_of outcome in
      let answers = merge_prefs st category (extract_fields desk.matches category masked) in
      if is_tool_call decision.outcome && is_order_category category
      then begin_or_run outcome decision category masked context answers
          (missing_fields category answers) st
      else run_fresh outcome decision category masked context st

  -- What the classification writes on the turn and into the audit log.
  unfoldable pub classified : IntentOutcome → PolicyDecision → St → St
  classified outcome decision st =
      add_note AuditAction.policy_decision (some (kind_value decision.outcome))
        (some (reason_value decision.reason))
        (add_note AuditAction.intent_classified (some outcome.method) (some (value outcome.intent))
          (record st {
            user_turn = record st.user_turn {
              intent = some (value outcome.intent);
              confidence = some outcome.confidence;
            };
          }))

  unfoldable pub route_outcome : Option IntentOutcome → String → ToolContext → St → Routed
  route_outcome none masked context st = routed degraded_reply none st
  route_outcome (some outcome) masked context st =
      let first = service_decide desk.matrix outcome.intent outcome.confidence masked in
      let (decision, session) = apply_low_confidence_streak st.session first in
      route_decided outcome decision masked context
        (classified outcome decision (set_session session st))

  unfoldable pub unless_feedback : Option Feedback → String → ToolContext → St → Routed
  unless_feedback (some v) masked context st =
      routed (feedback_reply v) none (set_trace (Trace.feedback_trace v) st)
  unless_feedback none masked context st = route_outcome (desk.classify masked) masked context st

  -- `_route_new`
  unfoldable pub route_new : String → ToolContext → St → Routed
  route_new masked context st = unless_feedback (detect_feedback masked) masked context st
