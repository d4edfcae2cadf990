-- ===== src/Sessions/Laws/Ending/Dialogue.antt =====
-- The messages of a dialogue in which an order is collected.
use kb_concierge.Prelude.{
  ◌++◌, ap, ◌∙◌, ℕ, suc, ◌≤◌, String, ◌≡◌, refl, sym, subst, ◌⊎◌, inl, inr, true, Option, none,
  some, List, [], ◌∷◌, length, non_empty, arith, All,
}
use kb_concierge.Prelude.Search.{Among}
use kb_concierge.Orders.{missing_fields, required_keys}
use kb_concierge.Policy.Kinds.{AgentActionKind, handoff, answer, tool_call, clarify}
use kb_concierge.Reasoning.Calls.{ToolContext}
use kb_concierge.Sessions.Model.{AgentSession, PendingAction, FlowState, order, OrderDraft}
use kb_concierge.Sessions.State.{Desk, St, run_loop}
use kb_concierge.Sessions.Switch.{detect_category_switch}
use kb_concierge.Sessions.Order.{
  collected, ask_again, next_question, collect_order, switched, order_step, interrupt_order,
  route_order_flow,
}
use kb_concierge.Sessions.Laws.Gates.{offer_order-flow}
use kb_concierge.Emergency.{classify_emergency}
use kb_concierge.Sessions.Accident.{route, route_by, route_calm}
use kb_concierge.Sessions.Laws.Gates.{IsExclusive, route-IsExclusive}
use kb_concierge.Sessions.Laws.Ending.{missing_of-lt, collected-Keeps, collected-answered}

module _ (desk : Desk) where
  -- A collection that is over, or that asks for a missing field with at most `n` of them missing.
  abbrev pub Asks : String → ℕ → Option FlowState → Type 0
  Asks category n flow =
      (flow ≡ none)
      ⊎ ((d : OrderDraft) × (k : String) × (flow ≡ some (order d (some k)))
          × (d.category ≡ category)
          × Among k (missing_fields category d.answers)
          × (length (missing_fields category d.answers) ≤ n))

  next_question-Asks :
      (d : OrderDraft) (missing : List String) (n : ℕ) (context : ToolContext) (st : St)
      → missing ≡ missing_fields d.category d.answers
      → length missing ≤ n
      → Asks d.category n (next_question desk d missing context st).st.session.flow_state
  unfolding next_question ask_again
  next_question-Asks d [] n context st e h = inl (offer_order-flow desk d context st)
  next_question-Asks d (k ∷ ks) n context st e h =
      inr (d, k, refl, refl, subst (λ l. Among k l) e (inl refl), subst (λ l. length l ≤ n) e h)

  collected-lt :
      (d : OrderDraft) (k masked : String) (n : ℕ) (st : St)
      → Among k (missing_fields d.category d.answers)
      → length (missing_fields d.category d.answers) ≤ suc n
      → non_empty masked ≡ true
      → length (missing_fields d.category (collected desk d (some k) masked st)) ≤ n
  unfolding missing_fields
  collected-lt d k masked n st among h said =
      let less =
        missing_of-lt d.answers (collected desk d (some k) masked st) (required_keys d.category) k
          (collected-Keeps desk d (some k) masked st) among
          (collected-answered desk d k masked st said) in
      omega (arith, less, h)

  collect_order-Asks :
      (d : OrderDraft) (k masked : String) (n : ℕ) (context : ToolContext) (st : St)
      → detect_category_switch d.category masked ≡ none
      → Among k (missing_fields d.category d.answers)
      → length (missing_fields d.category d.answers) ≤ suc n
      → non_empty masked ≡ true
      → Asks d.category n (collect_order desk d (some k) masked context st).st.session.flow_state
  unfolding collect_order switched
  collect_order-Asks d k masked n context st same among h said =
      rw same (next_question-Asks _ _ n context st refl (collected-lt d k masked n st among h said))

  -- An interruption ends the collection as well.
  order_step-Asks :
      (kind : AgentActionKind) (d : OrderDraft) (k masked : String) (n : ℕ) (context : ToolContext)
      (st : St)
      → detect_category_switch d.category masked ≡ none
      → Among k (missing_fields d.category d.answers)
      → length (missing_fields d.category d.answers) ≤ suc n
      → non_empty masked ≡ true
      → Asks d.category n (order_step desk kind d (some k) masked context st).st.session.flow_state
  unfolding order_step interrupt_order run_loop
  order_step-Asks handoff d k masked n context st same among h said = inl refl
  order_step-Asks answer d k masked n context st same among h said =
      collect_order-Asks d k masked n context st same among h said
  order_step-Asks tool_call d k masked n context st same among h said =
      collect_order-Asks d k masked n context st same among h said
  order_step-Asks clarify d k masked n context st same among h said =
      collect_order-Asks d k masked n context st same among h said

  -- A text that reports no accident, is not empty and names no other category of order.
  abbrev pub IsPlain : String → String → Type 0
  IsPlain category m =
      (classify_emergency desk.playbook m ≡ none)
      × (detect_category_switch category m ≡ none)
      × (non_empty m ≡ true)

  route_by-order :
      (em : Option String) (p : Option PendingAction) (flow : Option FlowState) (d : OrderDraft)
      (a : Option String) (m : String) (context : ToolContext) (st : St)
      → em ≡ none
      → p ≡ none
      → flow ≡ some (order d a)
      → route_by desk em p flow m context st ≡ route_order_flow desk d a m context st
  unfolding route_by route_calm
  route_by-order em p flow d a m context st e f g = rw e (rw f (rw g refl))

  waits-not :
      (s : AgentSession) (f : FlowState)
      → IsExclusive s
      → s.flow_state ≡ some f
      → s.pending_action ≡ none
  unfolding IsExclusive
  waits-not s f (inl e) h = e
  waits-not s f (inr e) h = cc (e, h)

  -- One message to a session that collects: the collection is over, or fewer fields are missing.
  route-Asks :
      (category m : String) (n : ℕ) (context : ToolContext) (st : St)
      → IsPlain category m
      → IsExclusive st.session
      → (d : OrderDraft) (k : String) → st.session.flow_state ≡ some (order d (some k))
      → d.category ≡ category
      → Among k (missing_fields category d.answers)
      → length (missing_fields category d.answers) ≤ suc n
      → Asks category n (route desk m context st).st.session.flow_state
  unfolding route route_order_flow
  route-Asks category m n context st plain alone d k flow same among h =
      rw
        (route_by-order _ _ _ d (some k) m context st plain.0 (waits-not st.session _ alone flow)
          flow)
        (subst
          (λ c.
            IsPlain c m
            → Among k (missing_fields c d.answers)
            → length (missing_fields c d.answers) ≤ suc n
            → Asks c n (route_order_flow desk d (some k) m context st).st.session.flow_state)
          same (λ plain' among' h'. order_step-Asks _ d k m n context _ plain'.1 among' h' plain'.2)
          plain among h)

  Among-length : (k : String) (l : List String) → Among k l → ¬ (length l ≤ 0)
  Among-length k [] among h = among
  Among-length k (x ∷ l) among h = omega (arith, h)

  module _ (between : St → St) (context : ToolContext) where
    -- The messages of a dialogue, each routed; `between` is what happens to the rest of the state
    -- from one message to the next.
    unfoldable pub talk : List String → St → St
    talk [] st = st
    talk (m ∷ ms) st = talk ms (between (route desk m context st).st)

    -- The gates stay as they are between two messages.
    abbrev pub KeepsGates : Type 0
    KeepsGates =
        (st : St)
        → ((between st).session.flow_state ≡ st.session.flow_state)
          × ((between st).session.pending_action ≡ st.session.pending_action)

    between-IsExclusive :
        KeepsGates → (st : St) → IsExclusive st.session → IsExclusive (between st).session
    unfolding IsExclusive
    between-IsExclusive keeps st (inl e) = inl ((keeps st).1 ∙ e)
    between-IsExclusive keeps st (inr e) = inr ((keeps st).0 ∙ e)

    -- The collection of an order comes to an end. A session asks for a missing field of an order,
    -- at most as many fields are missing as messages follow, and each message reports no accident,
    -- is not empty and names no other category. Then the collection is over after one of these
    -- messages at the latest, whatever the services answer.
    pub talk-ends :
        (category : String) (ms : List String) (st : St)
        → KeepsGates
        → All (IsPlain category) ms
        → IsExclusive st.session
        → (d : OrderDraft) (k : String) → st.session.flow_state ≡ some (order d (some k))
        → d.category ≡ category
        → Among k (missing_fields category d.answers)
        → length (missing_fields category d.answers) ≤ length ms
        → (heard : List String) × (later : List String) × (heard ++ later ≡ ms)
          × ((talk heard st).session.flow_state ≡ none)
    unfolding talk
    talk-ends category [] st keeps plain alone d k flow same among h =
        absurd (Among-length k _ among h)
    talk-ends category (m ∷ ms) st keeps plain alone d k flow same among h =
        let next = (route desk m context st).st in
        let alone' = between-IsExclusive keeps next (route-IsExclusive desk m context st alone) in
        elim (subst (Asks category (length ms)) (sym (keeps next).0)
          (route-Asks category m (length ms) context st plain.0 alone d k flow same among h)) [
            | inl over ↦ (m ∷ [], ms, refl, over)
            | inr asks ↦
                let rest =
                  talk-ends category ms (between next) keeps plain.1 alone' asks.0 asks.1 asks.2
                    asks.3 asks.4 asks.5 in
                (m ∷ rest.0, rest.1, ap (λ l. m ∷ l) rest.2, rest.3)
          ]
