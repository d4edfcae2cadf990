-- ===== src/Sessions/Laws/Gates/Refined.antt =====
-- Every message is a step of the abstract machine of the dialogue.
use kb_concierge.Prelude.{String, ◌≡◌, refl, Option, none, some}
use kb_concierge.Reasoning.Calls.{ToolContext}
use kb_concierge.Sessions.Model.{FlowState, order, emergency, PendingAction}
use kb_concierge.Sessions.State.{Desk, St}
use kb_concierge.Sessions.Fresh.{route_new}
use kb_concierge.Sessions.Resolve.{resolve_pending}
use kb_concierge.Sessions.Order.{route_order_flow}
use kb_concierge.Sessions.Accident.{
  route_emergency_decision, begin_emergency_flow, route_calm, route_by, route,
}
use kb_concierge.Prelude.{sym, subst}
use kb_concierge.Sessions.Dialogue.{view_of, view, Heard, heard, IsCalm, Step}
use kb_concierge.Sessions.Laws.Gates.{IsExclusive, pending-closed}
use kb_concierge.Sessions.Laws.Gates.Settled.{
  edit_or_resolve-Step, begin_with-Step, decide_emergency-Step,
}
use kb_concierge.Sessions.Laws.Gates.Collected.{order_step-Step, unless_feedback-Step}

module _ (desk : Desk) (masked : String) (context : ToolContext) where
  abbrev said : Heard
  said = heard desk masked

  route_calm-Step :
      (p : Option PendingAction) (f : Option FlowState) (st : St)
      → said.alarm ≡ none
      → st.session.pending_action ≡ p
      → st.session.flow_state ≡ f
      → IsExclusive st.session
      → Step said (view_of p f) (view (route_calm desk p f masked context st).st.session)
  unfolding route_calm resolve_pending route_emergency_decision route_order_flow route_new
  route_calm-Step (some p) none st calm hp hf h =
      edit_or_resolve-Step desk said p.order _ p context st calm refl refl hp hf
  route_calm-Step (some p) (some f) st calm hp hf h = cc (pending-closed desk st.session f h hf, hp)
  route_calm-Step none (some (order d a)) st calm hp hf h =
      order_step-Step desk said _ d a masked context _ calm refl hp
  route_calm-Step none (some (emergency t m s o)) st calm hp hf h =
      decide_emergency-Step desk said _ t t s o _ refl hp (rw hf refl)
  route_calm-Step none none st calm hp hf h =
      unless_feedback-Step desk said _ masked context st calm hp hf

  begins :
      (t : String) (p : Option PendingAction) (f : Option FlowState) (st : St)
      → said.alarm ≡ some t
      → st.session.pending_action ≡ p
      → st.session.flow_state ≡ f
      → IsCalm (view_of p f)
      → Step said (view_of p f) (view (begin_emergency_flow desk t masked context st).st.session)
  unfolding begin_emergency_flow
  begins t p f st alarm hp hf calm =
      let same_view : view st.session ≡ view_of p f = rw hp (rw hf refl) in
      subst (λ v. Step said v (view (begin_emergency_flow desk t masked context st).st.session))
        same_view
        (begin_with-Step desk said _ t masked context st alarm (subst IsCalm (sym same_view) calm))

  route_by-Step :
      (em : Option String) (p : Option PendingAction) (f : Option FlowState) (st : St)
      → said.alarm ≡ em
      → st.session.pending_action ≡ p
      → st.session.flow_state ≡ f
      → IsExclusive st.session
      → Step said (view_of p f) (view (route_by desk em p f masked context st).st.session)
  unfolding route_by route_emergency_decision
  route_by-Step em p (some (emergency t m s o)) st alarm hp hf h =
      decide_emergency-Step desk said _ t t s o _ refl (pending-closed desk st.session _ h hf)
        (rw hf refl)
  route_by-Step (some t) none (some (order d a)) st alarm hp hf h =
      begins t none _ st alarm hp hf tt
  route_by-Step (some t) (some p) (some (order d a)) st alarm hp hf h =
      begins t (some p) _ st alarm hp hf tt
  route_by-Step (some t) (some p) none st alarm hp hf h = begins t (some p) none st alarm hp hf tt
  route_by-Step (some t) none none st alarm hp hf h = begins t none none st alarm hp hf tt
  route_by-Step none p (some (order d a)) st alarm hp hf h = route_calm-Step p _ st alarm hp hf h
  route_by-Step none p none st alarm hp hf h = route_calm-Step p none st alarm hp hf h

  -- The routing of a message implements the abstract machine of the dialogue: on a session with at
  -- most one gate open, whatever the services answer, the session goes from its view to the view
  -- after the message by a step that what is heard in the message allows.
  pub route-Step :
      (st : St)
      → IsExclusive st.session
      → Step (heard desk masked) (view st.session) (view (route desk masked context st).st.session)
  unfolding route
  route-Step st h = route_by-Step _ _ _ st refl refl refl h
