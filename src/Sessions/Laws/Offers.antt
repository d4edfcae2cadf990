-- ===== src/Sessions/Laws/Offers.antt =====
-- What a collection of an order proposes.
use kb_concierge.Prelude.{
  String, Bool, true, false, ◌≡◌, refl, Option, none, some, List, [], ◌∷◌, ap, ◌∙◌, sym, subst, All,
  Dict, lookup, non_empty, Bool-cases, Option-cases, inl, inr, arith,
}
use kb_concierge.Policy.Kinds.{AgentActionKind, handoff, answer, tool_call, clarify}
use kb_concierge.Reasoning.Calls.{ToolContext}
use kb_concierge.Orders.{answered, missing_of, required_keys, missing_fields}
use kb_concierge.Sessions.Model.{OrderDraft, PendingAction}
use kb_concierge.Sessions.State.{Desk, St, run_loop}
use kb_concierge.Sessions.Order.{
  interrupt_order, ask_again, propose, offer_order, next_question, collect_order, order_step,
  route_order_flow,
}
use kb_concierge.Sessions.Laws.Gates.{attach-session, switched-pending}

-- A key has a text that is not empty.
abbrev pub HasAnswer : Dict String → String → Type 0
HasAnswer answers k = (v : String) × (lookup k answers ≡ some v) × (non_empty v ≡ true)

-- Every field that the category of the draft requires has such a text.
pub IsCompleteDraft : Option OrderDraft → Type 0
IsCompleteDraft none = Unit
IsCompleteDraft (some d) = All (HasAnswer d.answers) (required_keys d.category)

answered-HasAnswer :
    (answers : Dict String) (k : String) → answered answers k ≡ true → HasAnswer answers k
unfolding answered
answered-HasAnswer answers k h = elim (Option-cases (lookup k answers)) [
  | inl e ↦ absurd (ground (arith, e))
  | inr e ↦ (e.0, e.1, ground (arith, e.1))
]

missing_of-HasAnswer :
    (answers : Dict String) (keys : List String)
    → missing_of keys answers ≡ []
    → All (HasAnswer answers) keys
unfolding missing_of
missing_of-HasAnswer answers [] h = tt
missing_of-HasAnswer answers (k ∷ keys) h = elim (Bool-cases (answered answers k)) [
  | inl e ↦
      (answered-HasAnswer answers k e, missing_of-HasAnswer answers keys (ground (arith, h, e)))
  | inr e ↦ absurd (ground (arith, h, e))
]

pub IsCompleteOffer : Option PendingAction → Type 0
unfolding IsCompleteDraft
IsCompleteOffer none = Unit
IsCompleteOffer (some p) = IsCompleteDraft p.order

closed : {o : Option PendingAction} → o ≡ none → IsCompleteOffer o
unfolding IsCompleteOffer
closed h = subst IsCompleteOffer (sym h) tt

module _ (desk : Desk) where
  propose-IsCompleteOffer :
      (b : Bool) (p : PendingAction) (i : String) (st : St)
      → st.session.pending_action ≡ none
      → IsCompleteDraft p.order
      → IsCompleteOffer (propose desk b p i st).session.pending_action
  unfolding propose IsCompleteOffer
  propose-IsCompleteOffer true p i st h c = c
  propose-IsCompleteOffer false p i st h c = subst IsCompleteOffer (sym h) tt

  offer_order-IsCompleteOffer :
      (d : OrderDraft) (context : ToolContext) (st : St)
      → st.session.pending_action ≡ none
      → missing_fields d.category d.answers ≡ []
      → IsCompleteOffer (offer_order desk d context st).st.session.pending_action
  unfolding offer_order run_loop IsCompleteDraft missing_fields
  offer_order-IsCompleteOffer d context st h c =
      subst IsCompleteOffer (sym (ap (λ s. s.pending_action) (attach-session desk _ _ _ context _)))
        (propose-IsCompleteOffer _ _ _ _ h
          (missing_of-HasAnswer d.answers (required_keys d.category) c))

  next_question-IsCompleteOffer :
      (d : OrderDraft) (missing : List String) (context : ToolContext) (st : St)
      → st.session.pending_action ≡ none
      → missing_fields d.category d.answers ≡ missing
      → IsCompleteOffer (next_question desk d missing context st).st.session.pending_action
  unfolding next_question ask_again
  next_question-IsCompleteOffer d [] context st h c = offer_order-IsCompleteOffer d context st h c
  next_question-IsCompleteOffer d (k ∷ ks) context st h c = closed h

  collect_order-IsCompleteOffer :
      (d : OrderDraft) (asking : Option String) (masked : String) (context : ToolContext) (st : St)
      → st.session.pending_action ≡ none
      → IsCompleteOffer (collect_order desk d asking masked context st).st.session.pending_action
  unfolding collect_order
  collect_order-IsCompleteOffer d asking masked context st h =
      next_question-IsCompleteOffer _ _ context _
        (ap (λ s. s.pending_action) (switched-pending desk _ d asking st) ∙ h) refl

  order_step-IsCompleteOffer :
      (k : AgentActionKind) (d : OrderDraft) (asking : Option String) (masked : String)
      (context : ToolContext) (st : St)
      → st.session.pending_action ≡ none
      → IsCompleteOffer (order_step desk k d asking masked context st).st.session.pending_action
  unfolding order_step interrupt_order run_loop
  order_step-IsCompleteOffer handoff d a masked context st h = closed h
  order_step-IsCompleteOffer answer d a masked context st h =
      collect_order-IsCompleteOffer d a masked context st h
  order_step-IsCompleteOffer tool_call d a masked context st h =
      collect_order-IsCompleteOffer d a masked context st h
  order_step-IsCompleteOffer clarify d a masked context st h =
      collect_order-IsCompleteOffer d a masked context st h

  -- A step of the collection of an order, with no proposal waiting before, leaves a proposal only
  -- for an order in which every field that its category requires has a text that is not empty.
  pub route_order_flow-IsCompleteOffer :
      (d : OrderDraft) (asking : Option String) (masked : String) (context : ToolContext) (st : St)
      → st.session.pending_action ≡ none
      → IsCompleteOffer (route_order_flow desk d asking masked context st).st.session.pending_action
  unfolding route_order_flow
  route_order_flow-IsCompleteOffer d asking masked context st h =
      order_step-IsCompleteOffer _ d asking masked context _ h
