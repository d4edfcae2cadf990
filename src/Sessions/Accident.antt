-- ===== src/Sessions/Accident.antt =====
-- `_begin_emergency_flow` and `_route_emergency_decision` of
-- backend/src/api/sessions/service.py, and the order of the branches in `post_message`.
use kb_concierge.Prelude.{
  String, Bool, ◌||◌, Option, none, some, List, [], ◌∷◌, if◌then◌else◌, str_eq, non_empty, Dict,
  lookup, insert,
}
use kb_concierge.Reasoning.Calls.{ToolContext}
use kb_concierge.Reasoning.Context.{fetch_of_object}
use kb_concierge.Reasoning.Detect.{Confirmation, yes_given, no_given, unclear, detect_confirmation}
use kb_concierge.Orders.{missing_fields, prompt_for}
use kb_concierge.Emergency.{PlaybookEntry, classify_emergency, build_emergency_message}
use kb_concierge.Sessions.Model.{AuditAction, FlowState, order, emergency, PendingAction, Trace}
use kb_concierge.Sessions.State.{
  Desk, St, Routed, routed, set_flow, set_pending, set_trace, set_intent, add_note,
}
use kb_concierge.Sessions.Order.{
  field_fallback_reply, prompt_or_fallback, draft_of, route_order_flow,
}
use kb_concierge.Sessions.Fresh.{degraded_reply, route_new}
use kb_concierge.Sessions.Resolve.{resolve_pending}

abbrev pub emergency_decline_reply : String
emergency_decline_reply =
    "Хорошо, заявку не оформляю. Если ситуация опасна — звоните в указанную аварийную службу. Будут вопросы — обращайтесь."

abbrev pub emergency_reask_reply : String
emergency_reask_reply = "Оформить заявку мастеру-партнёру? Ответьте «да» или «нет»."

-- `_REPAIR_CATEGORY`
abbrev pub repair_category : String
repair_category = "REPAIR"

-- `entry.partner_mode in (PARTNER_CREATE, PARTNER_OFFER)`
abbrev pub offers_order : String → Bool
offers_order mode = str_eq mode "CREATE" || str_eq mode "OFFER"

module _ (desk : Desk) where
  unfoldable pub emergency_state : PlaybookEntry → String → String → Option FlowState
  emergency_state entry em_type masked =
      if offers_order entry.partner_mode
      then some (emergency em_type entry.partner_mode entry.repair_subcategory masked)
      else none

  unfoldable pub begin_with : Option PlaybookEntry → String → String → ToolContext → St → Routed
  begin_with none em_type masked context st = routed degraded_reply none st
  begin_with (some entry) em_type masked context st =
      let (uk, log) = fetch_of_object desk.env "management_contact" context st.log in
      let st1 : St = record st { log = log } in
      routed (build_emergency_message desk.playbook entry uk) none (
        set_flow (emergency_state entry em_type masked) (
          add_note AuditAction.emergency_detected (some em_type) (some entry.partner_mode) (
            set_trace (Trace.emergency_trace em_type entry.partner_mode entry.scope)
              (set_intent "EMERGENCY" (set_pending none st1)))))

  -- `_begin_emergency_flow`
  unfoldable pub begin_emergency_flow : String → String → ToolContext → St → Routed
  begin_emergency_flow em_type masked context st =
      begin_with (lookup em_type desk.playbook.entries) em_type masked context st

  unfoldable pub repair_answers : String → String → Dict String
  repair_answers subcategory original =
      if non_empty subcategory
      then insert "subcategory" subcategory (("problem_description", original) ∷ [])
      else ("problem_description", original) ∷ []

  -- Consent to an order after the advice.
  unfoldable pub begin_repair : String → String → Dict String → List String → St → Routed
  begin_repair em_type original answers [] st =
      routed field_fallback_reply none
        (set_trace (Trace.decision_trace em_type yes_given) (set_flow none st))
  begin_repair em_type original answers (k ∷ ks) st =
      routed (prompt_or_fallback (prompt_for repair_category k)) none (
        add_note AuditAction.order_field_requested (some repair_category) (some k) (
          set_trace (Trace.decision_trace em_type yes_given)
            (set_flow (some (order (draft_of repair_category answers original) (some k))) st)))

  unfoldable pub decide_emergency : Confirmation → String → String → String → St → Routed
  decide_emergency yes_given em_type subcategory original st =
      let answers = repair_answers subcategory original in
      begin_repair em_type original answers (missing_fields repair_category answers) st
  decide_emergency no_given em_type subcategory original st =
      routed emergency_decline_reply none
        (set_flow none (set_trace (Trace.decision_trace em_type no_given) st))
  decide_emergency unclear em_type subcategory original st =
      routed emergency_reask_reply none (set_trace (Trace.decision_trace em_type unclear) st)

  -- `_route_emergency_decision`
  unfoldable pub route_emergency_decision : String → String → String → String → St → Routed
  route_emergency_decision em_type subcategory original masked st =
      decide_emergency (detect_confirmation masked) em_type subcategory original
        (set_intent "EMERGENCY" st)

  -- No accident is running and none is reported.
  unfoldable pub route_calm :
      Option PendingAction → Option FlowState → String → ToolContext → St → Routed
  route_calm (some p) flow masked context st = resolve_pending desk p masked context st
  route_calm none (some (order draft asking)) masked context st =
      route_order_flow desk draft asking masked context st
  route_calm none (some (emergency k m s o)) masked context st =
      route_emergency_decision k s o masked st
  route_calm none none masked context st = route_new desk masked context st

  unfoldable pub route_by :
      Option String → Option PendingAction → Option FlowState → String → ToolContext → St → Routed
  route_by em p (some (emergency k m s o)) masked context st =
      route_emergency_decision k s o masked st
  route_by (some em) p (some (order d a)) masked context st =
      begin_emergency_flow em masked context st
  route_by (some em) p none masked context st = begin_emergency_flow em masked context st
  route_by none p (some (order d a)) masked context st =
      route_calm p (some (order d a)) masked context st
  route_by none p none masked context st = route_calm p none masked context st

  -- The branches of `post_message` on an active session.
  unfoldable pub route : String → ToolContext → St → Routed
  route masked context st =
      route_by (classify_emergency desk.playbook masked) st.session.pending_action
        st.session.flow_state masked context st
