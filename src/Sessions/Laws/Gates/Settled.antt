-- ===== src/Sessions/Laws/Gates/Settled.antt =====
-- The steps of the dialogue that settle a proposal or an accident.
use kb_concierge.Prelude.{
  String, ◌&&◌, ◌≡◌, refl, inl, inr, Option, none, some, List, [], ◌∷◌, Dict, non_empty, Bool-cases,
  ap, ◌∙◌,
}
use kb_concierge.Reasoning.Calls.{ToolContext}
use kb_concierge.Reasoning.Detect.{Confirmation, yes_given, no_given, unclear}
use kb_concierge.Sessions.Model.{FlowState, order, OrderDraft, PendingAction}
use kb_concierge.Sessions.State.{Desk, St, run_loop}
use kb_concierge.Sessions.Resolve.{execute_pending, resolve_by, edit_or_resolve}
use kb_concierge.Sessions.Order.{in_keys, reopen_for_edit, draft_of}
use kb_concierge.Sessions.Accident.{
  begin_with, emergency_state, offers_order, decide_emergency, begin_repair, repair_category,
}
use kb_concierge.Prelude.{sym, subst}
use kb_concierge.Emergency.{PlaybookEntry}
use kb_concierge.Sessions.Dialogue.{
  View, offered, accident, view_of, view, Heard, IsCalm, Step, alarmed, advised, unlisted, ended,
  unclear_accident, repair, settled, unclear_verdict, unnamed, reopened,
}
use kb_concierge.Sessions.Laws.Gates.{remember-session, emit_kind-session, execute_pending-gates}

-- A step to a view by what its gates are.
pub leads :
    {h : Heard} {v : View} {p' : Option PendingAction} {f' : Option FlowState}
    (p : Option PendingAction) (f : Option FlowState)
    → p' ≡ p
    → f' ≡ f
    → Step h v (view_of p f)
    → Step h v (view_of p' f')
leads p f hp hf step = rw hp (rw hf step)

module _ (desk : Desk) (h : Heard) where
  execute_pending-flow :
      (p : PendingAction) (context : ToolContext) (st : St)
      → (execute_pending desk p context st).st.session.flow_state ≡ none
  unfolding execute_pending run_loop
  execute_pending-flow p context st =
      ap (λ s. s.flow_state)
        (emit_kind-session desk p _ context _ ∙ remember-session desk _ p.order _)

  resolve_by-Step :
      (v : Confirmation) (p : PendingAction) (context : ToolContext) (st : St)
      → h.alarm ≡ none
      → h.verdict ≡ v
      → st.session.pending_action ≡ some p
      → st.session.flow_state ≡ none
      → Step h (offered p) (view (resolve_by desk v p context st).st.session)
  unfolding resolve_by
  resolve_by-Step yes_given p context st calm heard_v hp hf =
      leads none none (execute_pending-gates desk p context st) (execute_pending-flow p context st)
        (settled calm (λ e. cc (e, heard_v)))
  resolve_by-Step no_given p context st calm heard_v hp hf = settled calm (λ e. cc (e, heard_v))
  resolve_by-Step unclear p context st calm heard_v hp hf =
      leads (some p) none hp hf (unclear_verdict calm heard_v)

  reopen_for_edit-Step :
      (p : PendingAction) (d : OrderDraft) (f : String) (st : St)
      → h.alarm ≡ none
      → p.order ≡ some d
      → h.edit ≡ some f
      → st.session.pending_action ≡ some p
      → st.session.flow_state ≡ none
      → Step h (offered p) (view (reopen_for_edit desk d f st).st.session)
  unfolding reopen_for_edit
  reopen_for_edit-Step p d f st calm ordered edited hp hf =
      elim (Bool-cases (non_empty f && in_keys desk d.category f)) [
        | inl e ↦ rw e (reopened d f calm ordered edited)
        | inr e ↦ rw e (leads (some p) none hp hf (unnamed f calm edited))
      ]

  pub edit_or_resolve-Step :
      (d : Option OrderDraft) (e : Option String) (p : PendingAction) (context : ToolContext)
      (st : St)
      → h.alarm ≡ none
      → p.order ≡ d
      → h.edit ≡ e
      → st.session.pending_action ≡ some p
      → st.session.flow_state ≡ none
      → Step h (offered p) (view (edit_or_resolve desk d e h.verdict p context st).st.session)
  unfolding edit_or_resolve
  edit_or_resolve-Step none e p context st calm ordered edited hp hf =
      resolve_by-Step h.verdict p context st calm refl hp hf
  edit_or_resolve-Step (some d) none p context st calm ordered edited hp hf =
      resolve_by-Step h.verdict p context st calm refl hp hf
  edit_or_resolve-Step (some d) (some f) p context st calm ordered edited hp hf =
      reopen_for_edit-Step p d f st calm ordered edited hp hf

  pub begin_with-Step :
      (e : Option PlaybookEntry) (t masked : String) (context : ToolContext) (st : St)
      → h.alarm ≡ some t
      → IsCalm (view st.session)
      → Step h (view st.session) (view (begin_with desk e t masked context st).st.session)
  unfolding begin_with emergency_state
  begin_with-Step none t masked context st alarm calm = unlisted t calm alarm
  begin_with-Step (some e) t masked context st alarm calm =
      elim (Bool-cases (offers_order e.partner_mode)) [
        | inl b ↦ rw b (alarmed t calm alarm)
        | inr b ↦ rw b (advised t calm alarm)
      ]

  begin_repair-Step :
      (t k o : String) (a : Dict String) (missing : List String) (st : St)
      → h.verdict ≡ yes_given
      → st.session.pending_action ≡ none
      → Step h (accident t) (view (begin_repair desk k o a missing st).st.session)
  unfolding begin_repair
  begin_repair-Step t k o a [] st consent hp = leads none none hp refl ended
  begin_repair-Step t k o a (m ∷ ms) st consent hp =
      leads none (some (order (draft_of repair_category a o) (some m))) hp refl (repair consent)

  pub decide_emergency-Step :
      (v : Confirmation) (t k s o : String) (st : St)
      → h.verdict ≡ v
      → st.session.pending_action ≡ none
      → view st.session ≡ accident t
      → Step h (accident t) (view (decide_emergency desk v k s o st).st.session)
  unfolding decide_emergency
  decide_emergency-Step yes_given t k s o st e hp hv = begin_repair-Step t k o _ _ st e hp
  decide_emergency-Step no_given t k s o st e hp hv = leads none none hp refl ended
  decide_emergency-Step unclear t k s o st e hp hv =
      subst (λ v. Step h (accident t) v) (sym hv) (unclear_accident e)
