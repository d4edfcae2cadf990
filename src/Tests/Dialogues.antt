-- ===== src/Tests/Dialogues.antt =====
-- Runs of dialogues and of their hand-over to a person.
use kb_concierge.Orders.{missing_fields, missing_of, required_keys, specs_of}
use kb_concierge.Intent.Scores.{category_scores, count, count_from}
use kb_concierge.Sessions.Switch.{detect_category_switch, switch_to, other}
use kb_concierge.Prelude.{
  String, List, ◌++◌, inl, arith, ◌≤◌, ◌≡◌, ◌⊎◌, inr, refl, true, none, some, [], ◌∷◌, has_str,
  truth, get_field, lower, strip, is_space, any_in, any_in,
}
use kb_concierge.Policy.Kinds.{clarify, DecisionReason}
use kb_concierge.Policy.Engine.{PolicyDecision, plain}
use kb_concierge.Sessions.Model.{
  order, AgentSession, Db, handed_off, operator_trigger, HandoffRecord, HandoffStatus,
}
use kb_concierge.Sessions.State.{run_loop, context_of}
use kb_concierge.Sessions.Access.{can_access, is_operator, is_staff_admin, effective_user_id}
use kb_concierge.Sessions.Fresh.{apply_low_confidence_streak}
use kb_concierge.Sessions.Order.{route_order_flow}
use kb_concierge.Emergency.{classify_emergency}
use kb_concierge.Reasoning.Calls.{call, call_tool}
use kb_concierge.Reasoning.Writes.{handle_tool_call, run_partner_service}
use kb_concierge.Reasoning.Loop.{run, turn_by}
use kb_concierge.Reasoning.Detect.{detect_confirmation, detect_in, token_match}
use kb_concierge.Sessions.Resolve.{
  resolve_pending, edit_or_resolve, resolve_by, execute_pending, pending_turn,
  decision_from_pending, remember, emit_kind,
}
use kb_concierge.Sessions.Accident.{route, route_by, route_calm}
use kb_concierge.Sessions.Post.{PostedTurn, post_message}
use kb_concierge.Sessions.Post.Owned.{forget_session, forgotten_db}
use kb_concierge.Sessions.Post.Handed.{OnlyForwards, OnlyRecords, post_message-handed_off}
use kb_concierge.Sessions.Post.Owned.Forget.{
  IsForgotten, forget_session-IsForgotten, forget_session-final,
}
use kb_concierge.Sessions.Dialogue.{Step, heard, view}
use kb_concierge.Sessions.Laws.Gates.Refined.{route-Step}
use kb_concierge.Sessions.Laws.Consent.{Allowed, route-Allowed}
use kb_concierge.Sessions.Laws.Gates.{IsExclusive, route-IsExclusive}
use kb_concierge.Sessions.Laws.Offers.{IsCompleteOffer, route_order_flow-IsCompleteOffer}
use kb_concierge.Sessions.Laws.Ending.Dialogue.{talk, talk-ends}
use kb_concierge.Sessions.Laws.Streak.{streak-bounded}
use kb_concierge.Handoff.{
  done, refused, conflict, not_found, Escalation, latest_open, active_ticket_ref,
}
use kb_concierge.Handoff.Replies.{
  Incoming, operator_reply, accept_reply, turn_by_idempotency_key, incoming_turn,
}
use kb_concierge.Handoff.Replies.Again.{operator_reply-again}
use kb_concierge.Tests.Sample

abbrev waiting : AgentSession
waiting = record Sample.session { pending_action = some Sample.proposal }

route-Allowed_example : Allowed Sample.desk refl (some Sample.proposal) "да"
unfolding route route_by classify_emergency any_in route_calm resolve_pending edit_or_resolve
    resolve_by detect_confirmation detect_in strip lower is_space token_match execute_pending
    run_loop run pending_turn decision_from_pending turn_by handle_tool_call run_partner_service
    has_str call_tool call truth get_field remember emit_kind
route-Allowed_example =
    route-Allowed Sample.desk refl "да" Sample.context (Sample.start_of waiting) refl

route-IsExclusive_example :
    IsExclusive (route Sample.desk "да" Sample.context (Sample.start_of waiting)).st.session
unfolding IsExclusive
route-IsExclusive_example =
    route-IsExclusive Sample.desk "да" Sample.context (Sample.start_of waiting) (inr refl)

route_order_flow-IsCompleteOffer_example :
    IsCompleteOffer
      (route_order_flow Sample.desk Sample.draft
        (some "datetime")
        "завтра"
        Sample.context
        (Sample.start_of Sample.session)).st.session.pending_action
route_order_flow-IsCompleteOffer_example =
    route_order_flow-IsCompleteOffer Sample.desk Sample.draft (some "datetime") "завтра"
      Sample.context (Sample.start_of Sample.session) refl

abbrev unsure : PolicyDecision
unsure = plain clarify DecisionReason.low_confidence "1.1"

streak-bounded_example :
    (apply_low_confidence_streak Sample.session unsure).1.low_confidence_streak ≤ 1
streak-bounded_example = streak-bounded Sample.session unsure

abbrev with_operator : AgentSession
with_operator = record Sample.session { status = handed_off }

abbrev after_forget : Db
after_forget = forgotten_db Sample.user Sample.session "s1" none 9 (Sample.db_of Sample.session)

forget_session-IsForgotten_example : IsForgotten "s1" (Sample.db_of Sample.session) after_forget
unfolding forget_session can_access is_operator is_staff_admin effective_user_id
forget_session-IsForgotten_example =
    forget_session-IsForgotten Sample.user "s1" none 9 (Sample.db_of Sample.session) after_forget
      refl

-- A further turn was written to the store.
abbrev later_db : Db
later_db = record after_forget { turns = Sample.user_turn ∷ [] }

forget_session-final_example :
    (post_message Sample.desk true Sample.message later_db [] ≡ (refused conflict, []))
    ⊎ (post_message Sample.desk true Sample.message later_db [] ≡ (refused not_found, []))
unfolding forget_session can_access is_operator is_staff_admin effective_user_id
forget_session-final_example =
    forget_session-final Sample.user "s1" none 9 (Sample.db_of Sample.session) after_forget later_db
      refl refl Sample.desk true Sample.message [] refl

abbrev asked : Escalation
asked = record {
  trigger = operator_trigger;
  reason = "OPERATOR_REQUESTED";
  actor_id = "u2";
  external_masked = none;
  stamp = 2;
}

abbrev handed : HandoffRecord
handed = record {
  session_id = "s1";
  trigger = operator_trigger;
  status = HandoffStatus.open_status;
  reason = "OPERATOR_REQUESTED";
  target_ref = some "7";
  snapshot_turns = 1;
  correlation_id = none;
  stamp = 1;
}

abbrev handed_db : Db
handed_db = record (Sample.db_of with_operator) { handoffs = handed ∷ [] }

post_message-handed_off_example :
    OnlyForwards
      (some "7")
      "да"
      (context_of with_operator none)
      []
      (post_message Sample.desk true Sample.message handed_db []).1
    × ((posted : PostedTurn) × (db' : Db) × ((post_message Sample.desk true Sample.message handed_db
            []).0
          ≡ done (posted, db'))
        × OnlyRecords "да" Sample.message posted handed_db db')
unfolding can_access is_operator is_staff_admin effective_user_id active_ticket_ref latest_open
post_message-handed_off_example =
    post_message-handed_off Sample.desk true Sample.message handed_db [] with_operator refl refl
      refl

abbrev reply : Incoming
reply = record {
  message = "Здравствуйте";
  masked = "Здравствуйте";
  ref = none;
  correlation_id = none;
  idempotency_key = some "k1";
  now = 7;
}

operator_reply-again_example :
    operator_reply Sample.user "s1" reply (accept_reply Sample.user "s1" handed reply handed_db).1
    ≡ done (accept_reply Sample.user "s1" handed reply handed_db)
unfolding operator_reply turn_by_idempotency_key latest_open accept_reply incoming_turn
operator_reply-again_example =
    operator_reply-again Sample.user "s1" "k1" reply refl handed_db
      (accept_reply Sample.user "s1" handed reply handed_db).1
      (accept_reply Sample.user "s1" handed reply handed_db).0 refl

route-Step_example :
    Step
      (heard Sample.desk "да")
      (view waiting)
      (view (route Sample.desk "да" Sample.context (Sample.start_of waiting)).st.session)
unfolding IsExclusive
route-Step_example = route-Step Sample.desk "да" Sample.context (Sample.start_of waiting) (inr refl)

abbrev collecting : AgentSession
collecting = record Sample.session { flow_state = some (order Sample.draft (some "datetime")) }

abbrev answers_given : List String
answers_given = "генеральная" ∷ "две комнаты" ∷ "завтра" ∷ "Москва" ∷ []

-- The draft lacks all its fields; there are four answers.
talk-ends_example :
    (heard : List String) × (later : List String) × (heard ++ later ≡ answers_given)
    × ((talk Sample.desk
          (λ st. st)
          Sample.context
          heard
          (Sample.start_of collecting)).session.flow_state
        ≡ none)
unfolding classify_emergency any_in detect_category_switch switch_to category_scores other count
    count_from lower IsExclusive missing_fields missing_of required_keys specs_of
talk-ends_example =
    talk-ends Sample.desk (λ st. st) Sample.context "CLEANING" answers_given
      (Sample.start_of collecting) (λ st. (refl, refl))
      ((refl, refl, refl), ((refl, refl, refl), ((refl, refl, refl), ((refl, refl, refl), tt))))
      (inl refl) Sample.draft "datetime" refl refl (inr (inr (inl refl))) (omega arith)
