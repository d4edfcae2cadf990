-- ===== src/Sessions/Laws/Consent.antt =====
-- The agent acts on a message only with consent, or for a support request.
use kb_concierge.Prelude.{
  ℕ, String, Bool, true, false, ◌≡◌, refl, ◌⊎◌, inl, inr, Option, none, some, List, [], ◌∷◌, Dict,
  ap, ◌∙◌, sym, subst, Bool-cases, arith, ◌&&◌, lookup,
}
use kb_concierge.Intent.{Intent, same}
use kb_concierge.Policy.Kinds.{AgentActionKind, handoff, answer, tool_call, clarify}
use kb_concierge.Policy.Engine.{PolicyDecision}
use kb_concierge.Policy.Guardrails.{service_decide}
use kb_concierge.Policy.Matrix.{built_in}
use kb_concierge.Policy.Safety.{built_in-tool_call}
use kb_concierge.Reasoning.Calls.{Log, ToolContext, LoopResult}
use kb_concierge.Reasoning.Loop.{Turn, run}
use kb_concierge.Reasoning.Consent.{run-action}
use kb_concierge.Intent.Engine.{IntentOutcome}
use kb_concierge.Sessions.Model.{
  OrderDraft, PendingAction, FlowState, order, emergency, AgentSession,
}
use kb_concierge.Sessions.State.{Desk, St, run_loop, set_intent}
use kb_concierge.Sessions.Order.{
  interrupt_order, ask_again, offer_order, next_question, collect_order, order_step,
  route_order_flow, order_turn, order_decision, attach_order_summary, begin_order_flow,
  reopen_for_edit,
}
use kb_concierge.Sessions.Fresh.{
  apply_low_confidence_streak, fresh_turn, with_card, run_fresh, begin_or_run, route_decided,
  route_outcome, unless_feedback, route_new, is_tool_call, category_of,
}
use kb_concierge.Orders.{is_order_category}
use kb_concierge.Emergency.{PlaybookEntry}
use kb_concierge.Reasoning.Detect.{
  Feedback, Confirmation, yes_given, no_given, unclear, detect_confirmation,
}
use kb_concierge.Sessions.Resolve.{resolve_by, edit_or_resolve, resolve_pending}
use kb_concierge.Sessions.Accident.{
  begin_with, decide_emergency, begin_repair, route_emergency_decision, begin_emergency_flow,
  route_calm, route_by, route,
}

-- The agent reports an action.
abbrev pub acted : Option LoopResult → Bool
acted none = false
acted (some r) = r.action_taken

module _ (desk : Desk) (o : IntentOutcome) (d : PolicyDecision) (masked : String)
    (context : ToolContext) (st : St) where
  fresh-decision : (fresh_turn desk o d masked context st).decision ≡ d
  unfolding fresh_turn
  fresh-decision = refl

  fresh-intent : (fresh_turn desk o d masked context st).intent ≡ o.intent
  unfolding fresh_turn
  fresh-intent = refl

  fresh-confirmed : (fresh_turn desk o d masked context st).confirmed ≡ false
  unfolding fresh_turn
  fresh-confirmed = refl

module _ (desk : Desk) (std : desk.matrix ≡ built_in) where
  tool_call-rule :
      (i : Intent) (c : ℕ) (text : String)
      → (service_decide desk.matrix i c text).outcome ≡ tool_call
      → ((i ≡ Intent.partner_service)
          × ((service_decide desk.matrix i c text).requires_confirmation ≡ true))
        ⊎ (i ≡ Intent.support_issue)
  tool_call-rule i c text =
      subst
        (λ m.
          (service_decide m i c text).outcome ≡ tool_call
          → ((i ≡ Intent.partner_service)
              × ((service_decide m i c text).requires_confirmation ≡ true))
            ⊎ (i ≡ Intent.support_issue))
        (sym std) (built_in-tool_call i c text)

  -- A turn without consent acts only on a support request.
  unconfirmed :
      (d : PolicyDecision) (i : Intent) (c : ℕ) (text : String) (t : Turn) (log : Log)
      → (d.outcome ≡ tool_call → d ≡ service_decide desk.matrix i c text)
      → t.decision ≡ d
      → t.intent ≡ i
      → t.confirmed ≡ false
      → (run desk.env t log).0.action_taken ≡ true
      → i ≡ Intent.support_issue
  unconfirmed d i c text t log same_d ed ei ec h =
      let (k, consented) = run-action desk.env t log h in
      let e = ed ∙ same_d (ap (λ x. x.outcome) (sym ed) ∙ k) in
      elim (tool_call-rule i c text (ap (λ x. x.outcome) (sym e) ∙ k)) [
        | inl (p, req) ↦
            let yes = consented.0 (ap (λ x. x.requires_confirmation) e ∙ req) in cc (yes, ec)
        | inr q ↦ q
      ]

  -- A turn of an order does nothing.
  order-quiet :
      (text : String) (context : ToolContext) (log : Log)
      → (run desk.env (order_turn desk (order_decision desk text) text context) log).0.action_taken
        ≡ false
  order-quiet text context log =
      let t = order_turn desk (order_decision desk text) text context in
      elim (Bool-cases (run desk.env t log).0.action_taken) [
        | inr h ↦ h
        | inl h ↦
            let wrong =
              unconfirmed (order_decision desk text) Intent.partner_service 9000 text t log
                (λ k. refl) refl refl refl h in
            cc (wrong)
      ]

  attach-action :
      (r : LoopResult) (c : String) (a : Dict String) (context : ToolContext) (st : St)
      → (attach_order_summary desk r c a context st).0.action_taken ≡ r.action_taken
  unfolding attach_order_summary
  attach-action r c a context st = ground arith

  offer_order-quiet :
      (d : OrderDraft) (context : ToolContext) (st : St)
      → acted (offer_order desk d context st).loop_result ≡ false
  unfolding offer_order run_loop
  offer_order-quiet d context st = attach-action _ _ _ context _ ∙ order-quiet _ context _

  next_question-quiet :
      (d : OrderDraft) (missing : List String) (context : ToolContext) (st : St)
      → acted (next_question desk d missing context st).loop_result ≡ false
  unfolding next_question ask_again
  next_question-quiet d [] context st = offer_order-quiet d context st
  next_question-quiet d (k ∷ ks) context st = refl

  order_step-quiet :
      (k : AgentActionKind) (d : OrderDraft) (asking : Option String) (masked : String)
      (context : ToolContext) (st : St)
      → acted (order_step desk k d asking masked context st).loop_result ≡ false
  unfolding order_step interrupt_order run_loop collect_order
  order_step-quiet handoff d a masked context st = order-quiet masked context _
  order_step-quiet answer d a masked context st = next_question-quiet _ _ context _
  order_step-quiet tool_call d a masked context st = next_question-quiet _ _ context _
  order_step-quiet clarify d a masked context st = next_question-quiet _ _ context _

  streak-same :
      (s : AgentSession) (d : PolicyDecision)
      → (apply_low_confidence_streak s d).0.outcome ≡ tool_call
      → (apply_low_confidence_streak s d).0 ≡ d
  unfolding apply_low_confidence_streak
  streak-same s d h = ground (arith, h)

  -- The classification says that the message is a support request.
  pub Support : Option IntentOutcome → Type 0
  Support none = ⊥
  Support (some o) = o.intent ≡ Intent.support_issue

  with_card-action :
      (o : IntentOutcome) (c masked : String) (context : ToolContext) (r : LoopResult) (st : St)
      → (with_card desk o c masked context r st).0.action_taken ≡ r.action_taken
  unfolding with_card
  with_card-action o c masked context r st =
      elim (Bool-cases (same o.intent Intent.partner_service)) [
        | inl h ↦ rw h (attach-action r c _ context st)
        | inr h ↦ rw h refl
      ]

  -- The decision on a fresh message.
  abbrev fresh_decision : IntentOutcome → String → AgentSession → PolicyDecision
  fresh_decision o masked session =
      (apply_low_confidence_streak session
        (service_decide desk.matrix o.intent o.confidence masked)).0

  run_fresh-support :
      (o : IntentOutcome) (session : AgentSession) (c masked : String) (context : ToolContext)
      (st : St)
      → acted (run_fresh desk o (fresh_decision o masked session) c masked context st).loop_result
        ≡ true
      → o.intent ≡ Intent.support_issue
  unfolding run_fresh run_loop
  run_fresh-support o session c masked context st h =
      let d = fresh_decision o masked session in
      unconfirmed d o.intent o.confidence masked (fresh_turn desk o d masked context st) st.log
        (streak-same session _) (fresh-decision desk o d masked context st)
        (fresh-intent desk o d masked context st) (fresh-confirmed desk o d masked context st)
        (sym (with_card-action o c masked context _ _) ∙ h)

  begin_or_run-support :
      (o : IntentOutcome) (session : AgentSession) (c masked : String) (context : ToolContext)
      (a : Dict String) (missing : List String) (st : St)
      → acted
          (begin_or_run desk o
            (fresh_decision o masked session)
            c
            masked
            context
            a
            missing
            st).loop_result
        ≡ true
      → o.intent ≡ Intent.support_issue
  unfolding begin_or_run begin_order_flow
  begin_or_run-support o session c masked context a [] st h =
      run_fresh-support o session c masked context st h
  begin_or_run-support o session c masked context a (k ∷ ks) st h = cc (h)

  route_decided-support :
      (o : IntentOutcome) (session : AgentSession) (masked : String) (context : ToolContext)
      (st : St)
      → acted (route_decided desk o (fresh_decision o masked session) masked context st).loop_result
        ≡ true
      → o.intent ≡ Intent.support_issue
  unfolding route_decided
  route_decided-support o session masked context st =
      elim (Bool-cases (
        is_tool_call (fresh_decision o masked session).outcome
        && is_order_category (category_of desk o))) [
          | inl b ↦ rw b (begin_or_run-support o session _ masked context _ _ st)
          | inr b ↦ rw b (run_fresh-support o session _ masked context st)
        ]

  route_outcome-Support :
      (o : Option IntentOutcome) (masked : String) (context : ToolContext) (st : St)
      → acted (route_outcome desk o masked context st).loop_result ≡ true
      → Support o
  unfolding route_outcome Support
  route_outcome-Support none masked context st h = cc (h)
  route_outcome-Support (some o) masked context st h =
      route_decided-support o st.session masked context _ h

  unless_feedback-Support :
      (v : Option Feedback) (masked : String) (context : ToolContext) (st : St)
      → acted (unless_feedback desk v masked context st).loop_result ≡ true
      → Support (desk.classify masked)
  unfolding unless_feedback
  unless_feedback-Support none masked context st h =
      route_outcome-Support (desk.classify masked) masked context st h
  unless_feedback-Support (some v) masked context st h = cc (h)

  resolve_by-yes :
      (v : Confirmation) (p : PendingAction) (context : ToolContext) (st : St)
      → acted (resolve_by desk v p context st).loop_result ≡ true
      → v ≡ yes_given
  unfolding resolve_by
  resolve_by-yes yes_given p context st h = refl
  resolve_by-yes no_given p context st h = cc (h)
  resolve_by-yes unclear p context st h = cc (h)

  reopen-quiet :
      (d : OrderDraft) (f : String) (st : St)
      → acted (reopen_for_edit desk d f st).loop_result ≡ false
  unfolding reopen_for_edit
  reopen-quiet d f st = ground arith

  edit_or_resolve-yes :
      (d : Option OrderDraft) (e : Option String) (v : Confirmation) (p : PendingAction)
      (context : ToolContext) (st : St)
      → acted (edit_or_resolve desk d e v p context st).loop_result ≡ true
      → v ≡ yes_given
  unfolding edit_or_resolve
  edit_or_resolve-yes none e v p context st h = resolve_by-yes v p context st h
  edit_or_resolve-yes (some d) none v p context st h = resolve_by-yes v p context st h
  edit_or_resolve-yes (some d) (some f) v p context st h = cc (h, reopen-quiet d f st)

  repair-quiet :
      (k o : String) (a : Dict String) (missing : List String) (st : St)
      → acted (begin_repair desk k o a missing st).loop_result ≡ false
  unfolding begin_repair
  repair-quiet k o a [] st = refl
  repair-quiet k o a (m ∷ ms) st = refl

  emergency-quiet :
      (v : Confirmation) (k s o : String) (st : St)
      → acted (decide_emergency desk v k s o st).loop_result ≡ false
  unfolding decide_emergency
  emergency-quiet yes_given k s o st = repair-quiet k o _ _ st
  emergency-quiet no_given k s o st = refl
  emergency-quiet unclear k s o st = refl

  begin_with-quiet :
      (e : Option PlaybookEntry) (k masked : String) (context : ToolContext) (st : St)
      → acted (begin_with desk e k masked context st).loop_result ≡ false
  unfolding begin_with
  begin_with-quiet none k masked context st = refl
  begin_with-quiet (some e) k masked context st = refl

  -- What an action presupposes.
  pub Allowed : Option PendingAction → String → Type 0
  Allowed p masked =
      ((a : PendingAction) × ((p ≡ some a) × (detect_confirmation masked ≡ yes_given)))
      ⊎ Support (desk.classify masked)

  route_calm-Allowed :
      (p : Option PendingAction) (f : Option FlowState) (masked : String) (context : ToolContext)
      (st : St)
      → acted (route_calm desk p f masked context st).loop_result ≡ true
      → Allowed p masked
  unfolding route_calm resolve_pending route_emergency_decision route_order_flow route_new Allowed
  route_calm-Allowed (some p) f masked context st h =
      inl (p, (refl, edit_or_resolve-yes p.order _ _ p context st h))
  route_calm-Allowed none (some (order d a)) masked context st h = cc (
    h,
    order_step-quiet (order_decision desk masked).outcome d a masked context
        (set_intent "PARTNER_SERVICE" st),
  )
  route_calm-Allowed none (some (emergency k m s o)) masked context st h =
      cc (h, emergency-quiet (detect_confirmation masked) k s o (set_intent "EMERGENCY" st))
  route_calm-Allowed none none masked context st h =
      inr (unless_feedback-Support _ masked context st h)

  route_by-Allowed :
      (em : Option String) (p : Option PendingAction) (f : Option FlowState) (masked : String)
      (context : ToolContext) (st : St)
      → acted (route_by desk em p f masked context st).loop_result ≡ true
      → Allowed p masked
  unfolding route_by route_emergency_decision begin_emergency_flow
  route_by-Allowed em p (some (emergency k m s o)) masked context st h =
      cc (h, emergency-quiet (detect_confirmation masked) k s o (set_intent "EMERGENCY" st))
  route_by-Allowed (some em) p (some (order d a)) masked context st h =
      cc (h, begin_with-quiet (lookup em desk.playbook.entries) em masked context st)
  route_by-Allowed (some em) p none masked context st h =
      cc (h, begin_with-quiet (lookup em desk.playbook.entries) em masked context st)
  route_by-Allowed none p (some (order d a)) masked context st h =
      route_calm-Allowed p _ masked context st h
  route_by-Allowed none p none masked context st h = route_calm-Allowed p _ masked context st h

  -- Under the built-in matrix the agent acts on a message only if a proposal was waiting and the
  -- message is a consent, or if the message was classified as a support request.
  pub route-Allowed :
      (masked : String) (context : ToolContext) (st : St)
      → acted (route desk masked context st).loop_result ≡ true
      → Allowed st.session.pending_action masked
  unfolding route
  route-Allowed masked context st h = route_by-Allowed _ _ _ masked context st h
