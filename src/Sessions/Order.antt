-- ===== src/Sessions/Order.antt =====
-- The collection of an order in backend/src/api/sessions/service.py: `_begin_order_flow`,
-- `_route_order_flow`, `_attach_order_summary` and `_reopen_for_edit`.
use kb_concierge.Prelude.{
  ℕ, String, Bool, false, ◌&&◌, not, Option, none, some, List, [], ◌∷◌, map, any, if◌then◌else◌,
  str_eq, non_empty, fstring, join, Dict, lookup, insert, erase,
}
use kb_concierge.Intent.{Intent}
use kb_concierge.Policy.Kinds.{AgentActionKind, handoff, reason_value}
use kb_concierge.Policy.Engine.{PolicyDecision}
use kb_concierge.Policy.Guardrails.{service_decide}
use kb_concierge.Reasoning.Calls.{ToolContext, LoopResult, Summary}
use kb_concierge.Reasoning.Context.{fetch_of_object, fetch_estimate}
use kb_concierge.Reasoning.Loop.{Turn}
use kb_concierge.Orders.{
  is_order_category, required_keys, prompt_for, build_fields_prompt, answered, missing_fields,
  build_raw_input, extract_fields,
}
use kb_concierge.Sessions.Model.{AuditAction, order, OrderDraft, PendingAction, Trace}
use kb_concierge.Sessions.State.{
  Desk, St, Routed, routed, set_flow, set_pending, set_trace, set_intent, add_note, no_refs,
  run_loop,
}
use kb_concierge.Sessions.Switch.{detect_category_switch}
use kb_concierge.Sessions.Prefs.{merge_prefs}

abbrev pub field_fallback_reply : String
field_fallback_reply = "Уточните, пожалуйста, детали заявки."

-- `_ORDER_READY_CONFIDENCE`, 0.9
abbrev pub order_ready_confidence : ℕ
order_ready_confidence = 9000

-- `_FIELD_LABELS`
abbrev pub field_labels : Dict String
field_labels =
    ("cleaning_type", "тип уборки")
    ∷ ("area_or_rooms", "площадь/комнаты")
    ∷ ("datetime", "дата и время")
    ∷ ("city", "город")
    ∷ ("volume", "объём")
    ∷ ("floors_elevators", "этаж и лифт")
    ∷ ("movers_packing", "грузчики/упаковка")
    ∷ ("subcategory", "вид работ")
    ∷ ("problem_description", "описание")
    ∷ ("access", "доступ")
    ∷ []

-- `text or fallback`
abbrev pub or_fallback : String → String
or_fallback s = if non_empty s then s else field_fallback_reply

abbrev pub prompt_or_fallback : Option String → String
prompt_or_fallback none = field_fallback_reply
prompt_or_fallback (some s) = or_fallback s

abbrev pub draft_of : String → Dict String → String → OrderDraft
draft_of category answers original = record {
  category = category;
  answers = answers;
  original_masked = original;
}

module _ (desk : Desk) where
  -- `_begin_order_flow`; the trace of the turn is `trace`.
  unfoldable pub begin_order_flow : String → Dict String → String → String → Trace → St → Routed
  begin_order_flow category answers asking masked trace st =
      routed (or_fallback (build_fields_prompt category (missing_fields category answers))) none (
        add_note AuditAction.order_field_requested (some category) (some asking) (
          set_trace trace
            (set_flow (some (order (draft_of category answers masked) (some asking))) st)))

  card : String → Dict String → Option String → Option String × Option String → Summary
  card category answers address (price, eta) = record {
    category = category;
    fields = answers;
    address = address;
    price_range = price;
    eta = eta;
  }

  values : Dict String → List String
  values [] = []
  values ((k, v) ∷ d) = v ∷ values d

  -- `_attach_order_summary`
  unfoldable pub attach_order_summary :
      LoopResult → String → Dict String → ToolContext → St → LoopResult × St
  unfolding card values
  attach_order_summary result category answers context st =
      let (address, log) = fetch_of_object desk.env "address" context st.log in
      let (estimate, log') =
        fetch_estimate desk.env category (join "; " (values answers)) context log in
      if not result.awaiting_confirmation
      then (result, st)
      else if not (is_order_category category)
      then (result, st)
      else (
        record result { summary = some (card category answers address estimate) },
        record st { log = log' },
      )

  label_of : String → String
  label_of k = elim (lookup k field_labels) [ none ↦ k | some l ↦ l ]

  abbrev pub in_keys : String → String → Bool
  in_keys category k = any (str_eq k) (required_keys category)

  -- `_reopen_for_edit`; an edit of no known field is the empty text.
  unfoldable pub reopen_for_edit : OrderDraft → String → St → Routed
  unfolding label_of
  reopen_for_edit draft edit_field st =
      let st' = set_intent "PARTNER_SERVICE" st in
      let kept = draft_of draft.category (erase edit_field draft.answers) draft.original_masked in
      if non_empty edit_field && in_keys draft.category edit_field
      then routed (prompt_or_fallback (prompt_for draft.category edit_field)) none (
          add_note AuditAction.order_field_requested (some draft.category) (some edit_field) (
            set_trace (Trace.edit_trace (some edit_field))
              (set_pending none (set_flow (some (order kept (some edit_field))) st'))))
      else routed
          (fstring (
            "Что изменить? Можно поправить: "
            ∷ join ", " (map label_of (required_keys draft.category))
            ∷ "."
            ∷ []))
          none (set_trace (Trace.edit_trace none) st')

  -- The decision on a text of an order.
  abbrev pub order_decision : String → PolicyDecision
  order_decision text =
      service_decide desk.matrix Intent.partner_service order_ready_confidence text

  abbrev pub order_turn : PolicyDecision → String → ToolContext → Turn
  order_turn decision text context = record {
    decision = decision;
    intent = Intent.partner_service;
    query_masked = text;
    context = context;
    confirmed = false;
    status_refs = no_refs;
  }

  -- A stop signal amid the collection.
  unfoldable pub interrupt_order : PolicyDecision → String → ToolContext → St → Routed
  interrupt_order decision masked context st =
      let (result, st') =
        run_loop desk.env (order_turn decision masked context) (set_flow none st) in
      routed result.reply (some result) (
        add_note AuditAction.policy_decision (some "HANDOFF") (some (reason_value decision.reason))
          (set_trace (Trace.interrupted_trace decision result) st'))

  -- `answers.setdefault(key, value)` for each field
  unfoldable pub set_defaults : Dict String → Dict String → Dict String
  set_defaults [] answers = answers
  set_defaults ((k, v) ∷ found) answers =
      set_defaults found (elim (lookup k answers) [ none ↦ insert k v answers | some w ↦ answers ])

  -- The answer to the field that was asked for.
  unfoldable pub set_asked : Option String → String → Dict String → Dict String
  set_asked none masked answers = answers
  set_asked (some asking) masked answers =
      if answered answers asking then answers else insert asking masked answers

  of_keys : List String → Dict String → Dict String
  of_keys keys [] = []
  of_keys keys ((k, v) ∷ d) =
      let rest = of_keys keys d in if any (str_eq k) keys then (k, v) ∷ rest else rest

  -- The draft, the field asked for and the notes, after a switch of the category.
  unfoldable pub switched :
      Option String → OrderDraft → Option String → St → OrderDraft × Option String × St
  unfolding of_keys
  switched none draft asking st = (draft, asking, st)
  switched (some category) draft asking st = (
    draft_of category (of_keys (required_keys category) draft.answers) draft.original_masked,
    none,
    add_note AuditAction.order_reclassified (some category) none st,
  )

  -- What is known of the order after a message.
  unfoldable pub collected : OrderDraft → Option String → String → St → Dict String
  collected draft asking masked st =
      let found = extract_fields desk.matches draft.category masked in
      merge_prefs st draft.category (set_asked asking masked (set_defaults found draft.answers))

  -- The keys for the trace, which the source sorts.
  keys_of : Dict String → List String
  keys_of [] = []
  keys_of ((k, v) ∷ d) = k ∷ keys_of d

  -- Fields are missing: ask for them.
  unfoldable pub ask_again : OrderDraft → String → List String → St → Routed
  unfolding keys_of
  ask_again draft next missing st =
      routed (or_fallback (build_fields_prompt draft.category missing)) none (
        add_note AuditAction.order_field_requested (some draft.category) (some next) (
          set_trace (Trace.order_trace draft.category (keys_of draft.answers) missing none)
            (set_flow (some (order draft (some next))) st)))

  abbrev pub pending_order : PolicyDecision → String → Option OrderDraft → Intent → PendingAction
  pending_order decision text draft intent = record {
    tools = decision.allowed_tools;
    intent = intent;
    query_masked = text;
    policy_version = decision.policy_version;
    reason = decision.reason;
    order = draft;
  }

  -- A proposal is kept on the session until the user answers it.
  unfoldable pub propose : Bool → PendingAction → String → St → St
  propose awaiting p intent st =
      if awaiting
      then add_note AuditAction.confirmation_requested (some intent) (some (reason_value p.reason))
          (set_pending (some p) st)
      else st

  -- All fields are there: propose the order.
  unfoldable pub offer_order : OrderDraft → ToolContext → St → Routed
  unfolding keys_of
  offer_order draft context st =
      let raw_input = build_raw_input desk.trim draft.original_masked draft.answers in
      let decision = order_decision raw_input in
      let (result, st1) = run_loop desk.env (order_turn decision raw_input context) st in
      let st2 =
        propose result.awaiting_confirmation
          (pending_order decision raw_input (some draft) Intent.partner_service) "PARTNER_SERVICE"
          (set_flow none (
            set_trace (Trace.order_trace draft.category (keys_of draft.answers) [] (some result))
              st1)) in
      let (result', st3) = attach_order_summary result draft.category draft.answers context st2 in
      routed result'.reply (some result') st3

  unfoldable pub next_question : OrderDraft → List String → ToolContext → St → Routed
  next_question draft [] context st = offer_order draft context st
  next_question draft (k ∷ ks) context st = ask_again draft k (k ∷ ks) st

  unfoldable pub collect_order : OrderDraft → Option String → String → ToolContext → St → Routed
  collect_order draft asking masked context st =
      let (d, a, st') = switched (detect_category_switch draft.category masked) draft asking st in
      let answers = collected d a masked st' in
      next_question (draft_of d.category answers d.original_masked)
        (missing_fields d.category answers) context st'

  unfoldable pub order_step :
      AgentActionKind → OrderDraft → Option String → String → ToolContext → St → Routed
  order_step handoff draft asking masked context st =
      interrupt_order (order_decision masked) masked context st
  order_step _ draft asking masked context st = collect_order draft asking masked context st

  -- `_route_order_flow`
  unfoldable pub route_order_flow : OrderDraft → Option String → String → ToolContext → St → Routed
  route_order_flow draft asking masked context st =
      order_step (order_decision masked).outcome draft asking masked context
        (set_intent "PARTNER_SERVICE" st)
