-- ===== src/Sessions/Resolve.antt =====
-- `_decision_from_pending` and `_resolve_pending` of backend/src/api/sessions/service.py: the
-- user answers a proposal.
use kb_concierge.Prelude.{String, Bool, true, Option, none, some, if◌then◌else◌}
use kb_concierge.Intent.{value}
use kb_concierge.Policy.Kinds.{tool_call}
use kb_concierge.Policy.Engine.{PolicyDecision}
use kb_concierge.Reasoning.Calls.{ToolContext}
use kb_concierge.Reasoning.Detect.{
  Confirmation, yes_given, no_given, unclear, detect_confirmation, detect_edit,
}
use kb_concierge.Reasoning.Loop.{Turn}
use kb_concierge.Sessions.Model.{PendingAction, OrderDraft, Trace}
use kb_concierge.Sessions.State.{
  Desk, St, Routed, routed, set_flow, set_pending, set_trace, no_refs, run_loop, emit_action_event,
}
use kb_concierge.Sessions.Prefs.{save_prefs}
use kb_concierge.Sessions.Order.{reopen_for_edit}

abbrev pub decline_reply : String
decline_reply = "Хорошо, отменил. Если понадобится — обращайтесь."

abbrev pub reask_reply : String
reask_reply = "Нужно ваше подтверждение: оформляем заявку? Ответьте «да» или «нет»."

-- `_decision_from_pending`
unfoldable pub decision_from_pending : PendingAction → PolicyDecision
decision_from_pending p = record {
  outcome = tool_call;
  reason = p.reason;
  policy_version = p.policy_version;
  allowed_tools = p.tools;
  requires_confirmation = true;
}

module _ (desk : Desk) where
  unfoldable pub pending_turn : PendingAction → ToolContext → Turn
  pending_turn p context = record {
    decision = decision_from_pending p;
    intent = p.intent;
    query_masked = p.query_masked;
    context = context;
    confirmed = true;
    status_refs = no_refs;
  }

  -- The fields of an order that was made.
  unfoldable pub remember : Bool → Option OrderDraft → St → St
  remember taken none st = st
  remember taken (some d) st = if taken then save_prefs st d.category d.answers else st

  unfoldable pub emit_kind : PendingAction → Bool → ToolContext → St → St
  emit_kind p taken context st =
      if desk.webhooks
      then emit_action_event (value p.intent) (if taken then "action_taken" else "degraded")
          context.correlation_id st
      else st

  -- Consent: the action, once.
  unfoldable pub execute_pending : PendingAction → ToolContext → St → Routed
  unfolding emit_kind
  execute_pending p context st =
      let (result, st1) = run_loop desk.env (pending_turn p context) st in
      let st2 = set_flow none (
        set_pending none
          (set_trace (Trace.confirmation_trace yes_given p.intent (some result)) st1)) in
      routed result.reply (some result)
        (emit_kind p result.action_taken context (remember result.action_taken p.order st2))

  unfoldable pub resolve_by : Confirmation → PendingAction → ToolContext → St → Routed
  resolve_by yes_given p context st = execute_pending p context st
  resolve_by no_given p context st = routed decline_reply none (
      set_flow none
        (set_pending none (set_trace (Trace.confirmation_trace no_given p.intent none) st)))
  resolve_by unclear p context st =
      routed reask_reply none (set_trace (Trace.confirmation_trace unclear p.intent none) st)

  -- An edit comes before consent.
  unfoldable pub edit_or_resolve :
      Option OrderDraft → Option String → Confirmation → PendingAction → ToolContext → St → Routed
  edit_or_resolve (some d) (some edit_field) verdict p context st =
      reopen_for_edit desk d edit_field st
  edit_or_resolve (some d) none verdict p context st = resolve_by verdict p context st
  edit_or_resolve none edit verdict p context st = resolve_by verdict p context st

  -- `_resolve_pending`
  unfoldable pub resolve_pending : PendingAction → String → ToolContext → St → Routed
  resolve_pending p masked context st =
      edit_or_resolve p.order (detect_edit masked) (detect_confirmation masked) p context st
