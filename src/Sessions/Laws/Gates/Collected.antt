-- ===== src/Sessions/Laws/Gates/Collected.antt =====
-- The steps of the dialogue by which an order is collected and proposed, and those of a fresh
-- message.
use kb_concierge.Prelude.{
  String, Bool, true, false, ◌&&◌, ◌≡◌, refl, ◌⊎◌, inl, inr, Option, none, some, List, [], ◌∷◌,
  Dict, arith, Bool-cases, ap, ◌∙◌,
}
use kb_concierge.Policy.Kinds.{AgentActionKind, handoff, answer, tool_call, clarify}
use kb_concierge.Policy.Engine.{PolicyDecision}
use kb_concierge.Reasoning.Calls.{ToolContext}
use kb_concierge.Intent.Engine.{IntentOutcome}
use kb_concierge.Sessions.Model.{FlowState, order, OrderDraft, PendingAction}
use kb_concierge.Sessions.State.{Desk, St, run_loop}
use kb_concierge.Sessions.Fresh.{
  begin_or_run, route_decided, classified, route_outcome, unless_feedback, category_of,
  is_tool_call,
}
use kb_concierge.Reasoning.Detect.{Feedback}
use kb_concierge.Orders.{is_order_category}
use kb_concierge.Sessions.Order.{
  begin_order_flow, interrupt_order, switched, ask_again, propose, offer_order, next_question,
  collect_order, order_step, draft_of,
}
use kb_concierge.Prelude.{sym, subst}
use kb_concierge.Sessions.Switch.{detect_category_switch}
use kb_concierge.Orders.{missing_fields}
use kb_concierge.Sessions.Dialogue.{
  idle, collecting, view_of, view, Heard, category_after, Step, stayed, asked, proposed, asked_on,
  left, completed,
}
use kb_concierge.Sessions.Laws.Gates.{
  attach-session, offer_order-flow, switched-pending, run_fresh-flow, streak-gates,
}
use kb_concierge.Sessions.Laws.Gates.Settled.{leads}

module _ (desk : Desk) (h : Heard) where
  -- A proposal of this order, or none.
  abbrev Offers : OrderDraft → Option PendingAction → Type 0
  Offers d o = (o ≡ none) ⊎ ((p : PendingAction) × (o ≡ some p) × (p.order ≡ some d))

  propose-Offers :
      (d : OrderDraft) (b : Bool) (p : PendingAction) (i : String) (st : St)
      → st.session.pending_action ≡ none
      → p.order ≡ some d
      → Offers d (propose desk b p i st).session.pending_action
  unfolding propose
  propose-Offers d true p i st hp ordered = inr (p, refl, ordered)
  propose-Offers d false p i st hp ordered = inl hp

  offer_order-Offers :
      (d : OrderDraft) (context : ToolContext) (st : St)
      → st.session.pending_action ≡ none
      → Offers d (offer_order desk d context st).st.session.pending_action
  unfolding offer_order run_loop
  offer_order-Offers d context st hp =
      subst (Offers d) (sym (ap (λ s. s.pending_action) (attach-session desk _ _ _ context _)))
        (propose-Offers d _ _ _ _ hp refl)

  offered-Step :
      (c : String) (d : OrderDraft) (o : Option PendingAction) (f : Option FlowState)
      → h.alarm ≡ none
      → d.category ≡ category_after c (h.turned c)
      → missing_fields d.category d.answers ≡ []
      → f ≡ none
      → Offers d o
      → Step h (collecting c) (view_of o f)
  offered-Step c d o f calm same_category complete hf (inl e) = leads none none e hf (left calm)
  offered-Step c d o f calm same_category complete hf (inr (p, e, ordered)) =
      leads (some p) none e hf (completed p d calm ordered same_category complete)

  offer_order-Step :
      (c : String) (d : OrderDraft) (context : ToolContext) (st : St)
      → h.alarm ≡ none
      → d.category ≡ category_after c (h.turned c)
      → missing_fields d.category d.answers ≡ []
      → st.session.pending_action ≡ none
      → Step h (collecting c) (view (offer_order desk d context st).st.session)
  offer_order-Step c d context st calm same_category complete hp =
      offered-Step c d _ _ calm same_category complete (offer_order-flow desk d context st)
        (offer_order-Offers d context st hp)

  next_question-Step :
      (c : String) (d : OrderDraft) (missing : List String) (context : ToolContext) (st : St)
      → h.alarm ≡ none
      → d.category ≡ category_after c (h.turned c)
      → missing_fields d.category d.answers ≡ missing
      → st.session.pending_action ≡ none
      → Step h (collecting c) (view (next_question desk d missing context st).st.session)
  unfolding next_question ask_again
  next_question-Step c d [] context st calm same_category complete hp =
      offer_order-Step c d context st calm same_category complete hp
  next_question-Step c d (k ∷ ks) context st calm same_category missing hp =
      leads none (some (order d (some k))) hp refl
        (subst (λ x. Step h (collecting c) (collecting x)) (sym same_category) (asked_on calm))

  switched-category :
      (c : Option String) (d : OrderDraft) (asking : Option String) (st : St)
      → (switched desk c d asking st).0.category ≡ category_after d.category c
  unfolding switched
  switched-category none d asking st = refl
  switched-category (some c) d asking st = refl

  collect_order-Step :
      (d : OrderDraft) (asking : Option String) (masked : String) (context : ToolContext) (st : St)
      → h.alarm ≡ none
      → h.turned ≡ (λ category. detect_category_switch category masked)
      → st.session.pending_action ≡ none
      → Step h
          (collecting d.category)
          (view (collect_order desk d asking masked context st).st.session)
  unfolding collect_order
  collect_order-Step d asking masked context st calm turns hp =
      next_question-Step d.category _ _ context _ calm
        (switched-category _ d asking st
          ∙ ap (λ f. category_after d.category (f d.category)) (sym turns))
        refl (ap (λ s. s.pending_action) (switched-pending desk _ d asking st) ∙ hp)

  pub order_step-Step :
      (k : AgentActionKind) (d : OrderDraft) (asking : Option String) (masked : String)
      (context : ToolContext) (st : St)
      → h.alarm ≡ none
      → h.turned ≡ (λ category. detect_category_switch category masked)
      → st.session.pending_action ≡ none
      → Step h
          (collecting d.category)
          (view (order_step desk k d asking masked context st).st.session)
  unfolding order_step interrupt_order run_loop
  order_step-Step handoff d asking masked context st calm turns hp =
      leads none none hp refl (left calm)
  order_step-Step answer d asking masked context st calm turns hp =
      collect_order-Step d asking masked context st calm turns hp
  order_step-Step tool_call d asking masked context st calm turns hp =
      collect_order-Step d asking masked context st calm turns hp
  order_step-Step clarify d asking masked context st calm turns hp =
      collect_order-Step d asking masked context st calm turns hp

  -- A fresh message may leave any proposal.
  proposed-Step :
      (o : Option PendingAction) (f : Option FlowState)
      → h.alarm ≡ none
      → f ≡ none
      → Step h idle (view_of o f)
  proposed-Step none f calm hf = leads none none refl hf (stayed calm)
  proposed-Step (some p) f calm hf = leads (some p) none refl hf (proposed p calm)

  begin_or_run-Step :
      (o : IntentOutcome) (d : PolicyDecision) (c masked : String) (context : ToolContext)
      (a : Dict String) (missing : List String) (st : St)
      → h.alarm ≡ none
      → is_order_category c ≡ true
      → st.session.pending_action ≡ none
      → st.session.flow_state ≡ none
      → Step h idle (view (begin_or_run desk o d c masked context a missing st).st.session)
  unfolding begin_or_run begin_order_flow
  begin_or_run-Step o d c masked context a [] st calm known hp hf =
      proposed-Step _ _ calm (run_fresh-flow desk o d c masked context st ∙ hf)
  begin_or_run-Step o d c masked context a (k ∷ ks) st calm known hp hf =
      leads none (some (order (draft_of c a masked) (some k))) hp refl (asked c calm known)

  route_decided-Step :
      (o : IntentOutcome) (d : PolicyDecision) (masked : String) (context : ToolContext) (st : St)
      → h.alarm ≡ none
      → st.session.pending_action ≡ none
      → st.session.flow_state ≡ none
      → Step h idle (view (route_decided desk o d masked context st).st.session)
  unfolding route_decided
  route_decided-Step o d masked context st calm hp hf =
      elim (Bool-cases (is_tool_call d.outcome && is_order_category (category_of desk o))) [
        | inl b ↦ rw b (begin_or_run-Step o d _ masked context _ _ st calm (ground arith) hp hf)
        | inr b ↦ rw b (proposed-Step _ _ calm (run_fresh-flow desk o d _ masked context st ∙ hf))
      ]

  route_outcome-Step :
      (o : Option IntentOutcome) (masked : String) (context : ToolContext) (st : St)
      → h.alarm ≡ none
      → st.session.pending_action ≡ none
      → st.session.flow_state ≡ none
      → Step h idle (view (route_outcome desk o masked context st).st.session)
  unfolding route_outcome classified
  route_outcome-Step none masked context st calm hp hf = leads none none hp hf (stayed calm)
  route_outcome-Step (some o) masked context st calm hp hf =
      route_decided-Step o _ masked context _ calm ((streak-gates desk st.session _).0 ∙ hp)
        ((streak-gates desk st.session _).1 ∙ hf)

  pub unless_feedback-Step :
      (v : Option Feedback) (masked : String) (context : ToolContext) (st : St)
      → h.alarm ≡ none
      → st.session.pending_action ≡ none
      → st.session.flow_state ≡ none
      → Step h idle (view (unless_feedback desk v masked context st).st.session)
  unfolding unless_feedback
  unless_feedback-Step none masked context st calm hp hf =
      route_outcome-Step _ masked context st calm hp hf
  unless_feedback-Step (some v) masked context st calm hp hf = leads none none hp hf (stayed calm)
