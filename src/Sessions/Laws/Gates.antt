-- ===== src/Sessions/Laws/Gates.antt =====
-- The two gates of a session, the proposal that waits and the dialogue that goes on, are never
-- open at once.
pub mod Settled
pub mod Collected
pub mod Refined
use kb_concierge.Prelude.{
  String, Bool, true, false, ◌&&◌, ◌≡◌, refl, ◌⊎◌, inl, inr, Option, none, some, List, [], ◌∷◌,
  Dict, arith, Bool-cases, ap, ◌∙◌,
}
use kb_concierge.Intent.{Intent, value, same}
use kb_concierge.Policy.Kinds.{AgentActionKind, handoff, answer, tool_call, clarify}
use kb_concierge.Policy.Engine.{PolicyDecision}
use kb_concierge.Reasoning.Calls.{ToolContext, LoopResult}
use kb_concierge.Reasoning.Detect.{Confirmation, yes_given, no_given, unclear}
use kb_concierge.Intent.Engine.{IntentOutcome}
use kb_concierge.Sessions.Model.{
  AgentSession, FlowState, order, emergency, OrderDraft, PendingAction,
}
use kb_concierge.Sessions.State.{Desk, St, run_loop, emit_action_event}
use kb_concierge.Sessions.Fresh.{
  apply_low_confidence_streak, emit_fresh, with_card, run_fresh, begin_or_run, route_decided,
  classified, route_outcome, unless_feedback, route_new, category_of, is_tool_call,
}
use kb_concierge.Reasoning.Detect.{Feedback}
use kb_concierge.Orders.{is_order_category}
use kb_concierge.Sessions.Resolve.{
  remember, emit_kind, execute_pending, resolve_by, edit_or_resolve, resolve_pending,
}
use kb_concierge.Sessions.Prefs.{save_prefs, keep_prefs}
use kb_concierge.Sessions.Order.{
  begin_order_flow, attach_order_summary, reopen_for_edit, interrupt_order, switched, ask_again,
  propose, offer_order, next_question, collect_order, order_step, route_order_flow,
}
use kb_concierge.Sessions.Accident.{
  begin_with, decide_emergency, begin_repair, route_emergency_decision, begin_emergency_flow,
  route_calm, route_by, route,
}

unfoldable pub IsExclusive : AgentSession → Type 0
IsExclusive s = (s.pending_action ≡ none) ⊎ (s.flow_state ≡ none)

module _ (desk : Desk) where
  begin_with-IsExclusive :
      (e : Option _) (k masked : String) (context : ToolContext) (st : St)
      → IsExclusive st.session
      → IsExclusive (begin_with desk e k masked context st).st.session
  unfolding IsExclusive begin_with
  begin_with-IsExclusive none k masked context st h = h
  begin_with-IsExclusive (some e) k masked context st h = inl refl

  reopen_for_edit-IsExclusive :
      (d : OrderDraft) (f : String) (st : St)
      → IsExclusive st.session
      → IsExclusive (reopen_for_edit desk d f st).st.session
  unfolding IsExclusive reopen_for_edit
  reopen_for_edit-IsExclusive d f st h = ground arith

  pub attach-session :
      (r : LoopResult) (c : String) (a : Dict String) (context : ToolContext) (st : St)
      → (attach_order_summary desk r c a context st).1.session ≡ st.session
  unfolding attach_order_summary
  attach-session r c a context st = ground arith

  propose-flow :
      (b : Bool) (p : PendingAction) (i : String) (st : St)
      → (propose desk b p i st).session.flow_state ≡ st.session.flow_state
  unfolding propose
  propose-flow true p i st = refl
  propose-flow false p i st = refl

  -- An offer ends the collection.
  pub offer_order-flow :
      (d : OrderDraft) (context : ToolContext) (st : St)
      → (offer_order desk d context st).st.session.flow_state ≡ none
  unfolding offer_order run_loop
  offer_order-flow d context st =
      ap (λ s. s.flow_state) (attach-session _ _ _ context _) ∙ propose-flow _ _ _ _

  next_question-IsExclusive :
      (d : OrderDraft) (missing : List String) (context : ToolContext) (st : St)
      → st.session.pending_action ≡ none
      → IsExclusive (next_question desk d missing context st).st.session
  unfolding IsExclusive next_question ask_again
  next_question-IsExclusive d [] context st h = inr (offer_order-flow d context st)
  next_question-IsExclusive d (k ∷ ks) context st h = inl h

  pub switched-pending :
      (c : Option String) (d : OrderDraft) (a : Option String) (st : St)
      → (switched desk c d a st).2.session ≡ st.session
  unfolding switched
  switched-pending none d a st = refl
  switched-pending (some c) d a st = refl

  collect_order-IsExclusive :
      (d : OrderDraft) (asking : Option String) (masked : String) (context : ToolContext) (st : St)
      → st.session.pending_action ≡ none
      → IsExclusive (collect_order desk d asking masked context st).st.session
  unfolding collect_order
  collect_order-IsExclusive d asking masked context st h =
      next_question-IsExclusive _ _ context _
        (ap (λ s. s.pending_action) (switched-pending _ d asking st) ∙ h)

  order_step-IsExclusive :
      (k : AgentActionKind) (d : OrderDraft) (asking : Option String) (masked : String)
      (context : ToolContext) (st : St)
      → st.session.pending_action ≡ none
      → IsExclusive (order_step desk k d asking masked context st).st.session
  unfolding IsExclusive order_step interrupt_order run_loop
  order_step-IsExclusive handoff d asking masked context st h = inl h
  order_step-IsExclusive answer d asking masked context st h =
      collect_order-IsExclusive d asking masked context st h
  order_step-IsExclusive tool_call d asking masked context st h =
      collect_order-IsExclusive d asking masked context st h
  order_step-IsExclusive clarify d asking masked context st h =
      collect_order-IsExclusive d asking masked context st h

  save_prefs-session :
      (st : St) (c : String) (a : Dict String) → (save_prefs st c a).session ≡ st.session
  unfolding save_prefs keep_prefs
  save_prefs-session st c a = ground arith

  remember-session :
      (b : Bool) (d : Option OrderDraft) (st : St) → (remember desk b d st).session ≡ st.session
  unfolding remember
  remember-session b none st = refl
  remember-session true (some d) st = save_prefs-session st d.category d.answers
  remember-session false (some d) st = refl

  emit-session :
      (i k : String) (c : Option String) (st : St)
      → (emit_action_event i k c st).session ≡ st.session
  unfolding emit_action_event
  emit-session i k c st = ground arith

  emit_kind-session :
      (p : PendingAction) (b : Bool) (context : ToolContext) (st : St)
      → (emit_kind desk p b context st).session ≡ st.session
  unfolding emit_kind
  emit_kind-session p b context st = ground (
    arith,
    emit-session (value p.intent) "action_taken" context.correlation_id st,
    emit-session (value p.intent) "degraded" context.correlation_id st,
  )

  -- Consent closes both gates.
  execute_pending-gates :
      (p : PendingAction) (context : ToolContext) (st : St)
      → (execute_pending desk p context st).st.session.pending_action ≡ none
  unfolding execute_pending run_loop
  execute_pending-gates p context st =
      ap (λ s. s.pending_action) (emit_kind-session p _ context _ ∙ remember-session _ p.order _)

  resolve_by-IsExclusive :
      (v : Confirmation) (p : PendingAction) (context : ToolContext) (st : St)
      → IsExclusive st.session
      → IsExclusive (resolve_by desk v p context st).st.session
  unfolding IsExclusive resolve_by
  resolve_by-IsExclusive yes_given p context st h = inl (execute_pending-gates p context st)
  resolve_by-IsExclusive no_given p context st h = inl refl
  resolve_by-IsExclusive unclear p context st h = h

  edit_or_resolve-IsExclusive :
      (d : Option OrderDraft) (e : Option String) (v : Confirmation) (p : PendingAction)
      (context : ToolContext) (st : St)
      → IsExclusive st.session
      → IsExclusive (edit_or_resolve desk d e v p context st).st.session
  unfolding edit_or_resolve
  edit_or_resolve-IsExclusive none e v p context st h = resolve_by-IsExclusive v p context st h
  edit_or_resolve-IsExclusive (some d) none v p context st h =
      resolve_by-IsExclusive v p context st h
  edit_or_resolve-IsExclusive (some d) (some f) v p context st h =
      reopen_for_edit-IsExclusive d f st h

  begin_repair-IsExclusive :
      (k o : String) (a : Dict String) (missing : List String) (st : St)
      → st.session.pending_action ≡ none
      → IsExclusive (begin_repair desk k o a missing st).st.session
  unfolding IsExclusive begin_repair
  begin_repair-IsExclusive k o a [] st h = inl h
  begin_repair-IsExclusive k o a (m ∷ ms) st h = inl h

  decide_emergency-IsExclusive :
      (v : Confirmation) (k s o : String) (st : St)
      → st.session.pending_action ≡ none
      → IsExclusive (decide_emergency desk v k s o st).st.session
  unfolding IsExclusive decide_emergency
  decide_emergency-IsExclusive yes_given k s o st h = begin_repair-IsExclusive k o _ _ st h
  decide_emergency-IsExclusive no_given k s o st h = inl h
  decide_emergency-IsExclusive unclear k s o st h = inl h

  emit_fresh-session :
      (o : IntentOutcome) (k : String) (c : Option String) (st : St)
      → (emit_fresh desk o k c st).session ≡ st.session
  unfolding emit_fresh
  emit_fresh-session o k c st = elim (Bool-cases desk.webhooks) [
    | inl h ↦ rw h (emit-session _ k c _)
    | inr h ↦ rw h refl
  ]

  with_card-session :
      (o : IntentOutcome) (c masked : String) (context : ToolContext) (r : LoopResult) (st : St)
      → (with_card desk o c masked context r st).1.session ≡ st.session
  unfolding with_card
  with_card-session o c masked context r st =
      elim (Bool-cases (same o.intent Intent.partner_service)) [
        | inl h ↦ rw h (attach-session r c _ context st)
        | inr h ↦ rw h refl
      ]

  run_fresh-flow :
      (o : IntentOutcome) (d : PolicyDecision) (c masked : String) (context : ToolContext) (st : St)
      → (run_fresh desk o d c masked context st).st.session.flow_state ≡ st.session.flow_state
  unfolding run_fresh run_loop
  run_fresh-flow o d c masked context st =
      ap (λ s. s.flow_state) (with_card-session o c masked context _ _)
      ∙ (propose-flow _ _ _ _ ∙ ap (λ s. s.flow_state) (emit_fresh-session o _ _ _))

  begin_or_run-IsExclusive :
      (o : IntentOutcome) (d : PolicyDecision) (c masked : String) (context : ToolContext)
      (a : Dict String) (missing : List String) (st : St)
      → st.session.pending_action ≡ none
      → st.session.flow_state ≡ none
      → IsExclusive (begin_or_run desk o d c masked context a missing st).st.session
  unfolding IsExclusive begin_or_run begin_order_flow
  begin_or_run-IsExclusive o d c masked context a [] st h g =
      inr (run_fresh-flow o d c masked context st ∙ g)
  begin_or_run-IsExclusive o d c masked context a (k ∷ ks) st h g = inl h

  route_decided-IsExclusive :
      (o : IntentOutcome) (d : PolicyDecision) (masked : String) (context : ToolContext) (st : St)
      → st.session.pending_action ≡ none
      → st.session.flow_state ≡ none
      → IsExclusive (route_decided desk o d masked context st).st.session
  unfolding route_decided IsExclusive
  route_decided-IsExclusive o d masked context st h g =
      elim (Bool-cases (is_tool_call d.outcome && is_order_category (category_of desk o))) [
        | inl b ↦ rw b (begin_or_run-IsExclusive o d _ masked context _ _ st h g)
        | inr b ↦ rw b (inr (run_fresh-flow o d _ masked context st ∙ g))
      ]

  streak-gates :
      (s : AgentSession) (d : PolicyDecision)
      → ((apply_low_confidence_streak s d).1.pending_action ≡ s.pending_action)
        × ((apply_low_confidence_streak s d).1.flow_state ≡ s.flow_state)
  unfolding apply_low_confidence_streak
  streak-gates s d = (ground arith, ground arith)

  route_outcome-IsExclusive :
      (o : Option IntentOutcome) (masked : String) (context : ToolContext) (st : St)
      → st.session.pending_action ≡ none
      → st.session.flow_state ≡ none
      → IsExclusive (route_outcome desk o masked context st).st.session
  unfolding route_outcome IsExclusive classified
  route_outcome-IsExclusive none masked context st h g = inl h
  route_outcome-IsExclusive (some o) masked context st h g =
      route_decided-IsExclusive o _ masked context _ ((streak-gates st.session _).0 ∙ h)
        ((streak-gates st.session _).1 ∙ g)

  unless_feedback-IsExclusive :
      (v : Option Feedback) (masked : String) (context : ToolContext) (st : St)
      → st.session.pending_action ≡ none
      → st.session.flow_state ≡ none
      → IsExclusive (unless_feedback desk v masked context st).st.session
  unfolding unless_feedback IsExclusive
  unless_feedback-IsExclusive none masked context st h g =
      route_outcome-IsExclusive _ masked context st h g
  unless_feedback-IsExclusive (some v) masked context st h g = inl h

  -- A session that has an accident or an order running has no proposal waiting.
  pending-closed :
      (s : AgentSession) (f : FlowState)
      → IsExclusive s
      → s.flow_state ≡ some f
      → s.pending_action ≡ none
  unfolding IsExclusive
  pending-closed s f (inl h) e = h
  pending-closed s f (inr h) e = cc (h, e)

  route_calm-IsExclusive :
      (p : Option PendingAction) (f : Option FlowState) (masked : String) (context : ToolContext)
      (st : St)
      → st.session.pending_action ≡ p
      → st.session.flow_state ≡ f
      → IsExclusive st.session
      → IsExclusive (route_calm desk p f masked context st).st.session
  unfolding route_calm resolve_pending route_emergency_decision route_order_flow route_new
  route_calm-IsExclusive (some p) f masked context st hp hf h =
      edit_or_resolve-IsExclusive p.order _ _ p context st h
  route_calm-IsExclusive none (some (order d a)) masked context st hp hf h =
      order_step-IsExclusive _ d a masked context _ hp
  route_calm-IsExclusive none (some (emergency k m s o)) masked context st hp hf h =
      decide_emergency-IsExclusive _ k s o _ hp
  route_calm-IsExclusive none none masked context st hp hf h =
      unless_feedback-IsExclusive _ masked context st hp hf

  route_by-IsExclusive :
      (em : Option String) (p : Option PendingAction) (f : Option FlowState) (masked : String)
      (context : ToolContext) (st : St)
      → st.session.pending_action ≡ p
      → st.session.flow_state ≡ f
      → IsExclusive st.session
      → IsExclusive (route_by desk em p f masked context st).st.session
  unfolding route_by route_emergency_decision begin_emergency_flow
  route_by-IsExclusive em p (some (emergency k m s o)) masked context st hp hf h =
      decide_emergency-IsExclusive _ k s o _ (pending-closed st.session _ h hf)
  route_by-IsExclusive (some em) p (some (order d a)) masked context st hp hf h =
      begin_with-IsExclusive _ em masked context st h
  route_by-IsExclusive (some em) p none masked context st hp hf h =
      begin_with-IsExclusive _ em masked context st h
  route_by-IsExclusive none p (some (order d a)) masked context st hp hf h =
      route_calm-IsExclusive p _ masked context st hp hf h
  route_by-IsExclusive none p none masked context st hp hf h =
      route_calm-IsExclusive p _ masked context st hp hf h

  -- A message, routed on any branch, keeps it that a session has not both a proposal that waits
  -- and a dialogue of fields or of an accident that goes on.
  pub route-IsExclusive :
      (masked : String) (context : ToolContext) (st : St)
      → IsExclusive st.session
      → IsExclusive (route desk masked context st).st.session
  unfolding route
  route-IsExclusive masked context st h = route_by-IsExclusive _ _ _ masked context st refl refl h
