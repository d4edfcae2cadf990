-- ===== src/Sessions/Dialogue.antt =====
-- The dialogue as an abstract machine: what goes on between the agent and a user, and which steps a
-- message may make, without the rows, the texts and the calls.
use kb_concierge.Prelude.{String, ◌≡◌, true, Option, none, some, []}
use kb_concierge.Orders.{is_order_category, missing_fields}
use kb_concierge.Reasoning.Detect.{
  Confirmation, yes_given, unclear, detect_confirmation, detect_edit,
}
use kb_concierge.Emergency.{classify_emergency}
use kb_concierge.Sessions.Model.{
  AgentSession, FlowState, order, emergency, OrderDraft, PendingAction,
}
use kb_concierge.Sessions.State.{Desk}
use kb_concierge.Sessions.Switch.{detect_category_switch}

-- What goes on: nothing, the collection of an order of a category, a proposal, an accident.
pub data View : Type 0 where
  idle : View
  collecting : String → View
  offered : PendingAction → View
  accident : String → View

-- The view of a session.
abbrev pub view_of : Option PendingAction → Option FlowState → View
view_of p (some (emergency em_type mode subcategory original)) = accident em_type
view_of (some p) (some (order d asking)) = offered p
view_of (some p) none = offered p
view_of none (some (order d asking)) = collecting d.category
view_of none none = idle

abbrev pub view : AgentSession → View
view s = view_of s.pending_action s.flow_state

-- What is heard in a message: an accident, a verdict on a proposal, a wish to change a field, and
-- another category than the one of an order.
pub record Heard : Type 0 where
  pub alarm : Option String
  pub verdict : Confirmation
  pub edit : Option String
  pub turned : String → Option String

abbrev pub heard : Desk → String → Heard
heard desk masked = record {
  alarm = classify_emergency desk.playbook masked;
  verdict = detect_confirmation masked;
  edit = detect_edit masked;
  turned = λ category. detect_category_switch category masked;
}

-- The category of an order after a message.
abbrev pub category_after : String → Option String → String
category_after c none = c
category_after c (some d) = d

-- Anything but an accident that goes on.
abbrev pub IsCalm : View → Type 0
IsCalm idle = Unit
IsCalm (collecting c) = Unit
IsCalm (offered p) = Unit
IsCalm (accident t) = ⊥

-- The steps of the machine.
pub data Step (h : Heard) : View → View → Type 0 where
  -- A reported accident comes first, whatever goes on: it is answered, and stays open if an order
  -- for it is offered; one that is not in the playbook changes nothing.
  alarmed : {v : View} (t : String) → IsCalm v → h.alarm ≡ some t → Step h v (accident t)
  advised : {v : View} (t : String) → IsCalm v → h.alarm ≡ some t → Step h v idle
  unlisted : {v : View} (t : String) → IsCalm v → h.alarm ≡ some t → Step h v v
  -- An accident ends, goes on until it is clear whether an order is wanted, or leads to a repair.
  ended : {t : String} → Step h (accident t) idle
  unclear_accident : {t : String} → h.verdict ≡ unclear → Step h (accident t) (accident t)
  repair : {t : String} → h.verdict ≡ yes_given → Step h (accident t) (collecting "REPAIR")
  -- A fresh message.
  stayed : h.alarm ≡ none → Step h idle idle
  asked : (c : String) → h.alarm ≡ none → is_order_category c ≡ true → Step h idle (collecting c)
  proposed : (p : PendingAction) → h.alarm ≡ none → Step h idle (offered p)
  -- A collection asks on, ends, or proposes the order that is complete.
  asked_on :
      {c : String}
      → h.alarm ≡ none
      → Step h (collecting c) (collecting (category_after c (h.turned c)))
  left : {c : String} → h.alarm ≡ none → Step h (collecting c) idle
  completed :
      {c : String} (p : PendingAction) (d : OrderDraft)
      → h.alarm ≡ none
      → p.order ≡ some d
      → d.category ≡ category_after c (h.turned c)
      → missing_fields d.category d.answers ≡ []
      → Step h (collecting c) (offered p)
  -- A proposal is settled by a clear verdict; an unclear one, or an edit of no known field, leaves
  -- it as it is; an edit of a field reopens the order in its category.
  settled :
      {p : PendingAction} → h.alarm ≡ none → (h.verdict ≡ unclear → ⊥) → Step h (offered p) idle
  unclear_verdict :
      {p : PendingAction} → h.alarm ≡ none → h.verdict ≡ unclear → Step h (offered p) (offered p)
  unnamed :
      {p : PendingAction} (f : String)
      → h.alarm ≡ none
      → h.edit ≡ some f
      → Step h (offered p) (offered p)
  reopened :
      {p : PendingAction} (d : OrderDraft) (f : String)
      → h.alarm ≡ none
      → p.order ≡ some d
      → h.edit ≡ some f
      → Step h (offered p) (collecting d.category)
