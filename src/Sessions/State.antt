-- ===== src/Sessions/State.antt =====
-- What one message works on in backend/src/api/sessions/service.py: the session's row, the turn of
-- the user, the notes for the audit log, the preferences, the outbox and the calls of tools. `Desk`
-- is what the service is built over: the settings, and the parts that stand behind it.
use kb_concierge.Prelude.{
  ℕ, String, Bool, Option, none, some, List, [], ◌∷◌, ◌++◌, if◌then◌else◌, str_eq, Dict, Json, null,
  lookup,
}
use kb_concierge.Policy.Kinds.{AgentActionKind, clarify}
use kb_concierge.Policy.Matrix.{AutonomyMatrix}
use kb_concierge.Reasoning.Calls.{Env, Log, LoopResult, ToolContext}
use kb_concierge.Reasoning.Loop.{Turn, run}
use kb_concierge.Orders.{Matches, Strip}
use kb_concierge.Emergency.{Playbook}
use kb_concierge.Intent.Engine.{IntentOutcome}
use kb_concierge.Sessions.Model.{
  AuditAction, AgentSession, AgentTurn, Trace, UserPrefs, OutboxEvent, FlowState, PendingAction,
}

-- `webhooks` is the truth of `webhook_subscriber_url`; `classify` is the intent service on a
-- masked text; times are in milliseconds.
pub record Desk : Type 0 where
  pub env : Env
  pub matrix : AutonomyMatrix
  pub classify : String → Option IntentOutcome
  pub mask_pii : String → String
  pub matches : Matches
  pub trim : Strip
  pub playbook : Playbook
  pub webhooks : Bool
  pub eta_text : String
  pub auth_ttl : ℕ
  pub anon_ttl : ℕ

-- An entry of `extra_audits`.
pub record Note : Type 0 where
  pub action : AuditAction
  pub from_value : Option String
  pub to_value : Option String

abbrev pub note : AuditAction → Option String → Option String → Note
note a f t = record { action = a; from_value = f; to_value = t }

pub record St : Type 0 where
  pub session : AgentSession
  pub user_turn : AgentTurn
  pub extra_audits : List Note
  pub prefs : Dict UserPrefs
  pub events : List OutboxEvent
  pub log : Log

-- `(reply, loop_result)`, with the state that the branch leaves.
pub record Routed : Type 0 where
  pub reply : String
  pub loop_result : Option LoopResult
  pub st : St

abbrev pub routed : String → Option LoopResult → St → Routed
routed reply result st = record { reply = reply; loop_result = result; st = st }

abbrev pub set_session : AgentSession → St → St
set_session s st = record st { session = s }

abbrev pub set_flow : Option FlowState → St → St
set_flow f st = record st { session = record st.session { flow_state = f } }

abbrev pub set_pending : Option PendingAction → St → St
set_pending p st = record st { session = record st.session { pending_action = p } }

abbrev pub set_trace : Trace → St → St
set_trace t st = record st { user_turn = record st.user_turn { intent_trace = some t } }

abbrev pub set_intent : String → St → St
set_intent i st = record st { user_turn = record st.user_turn { intent = some i } }

abbrev pub add_note : AuditAction → Option String → Option String → St → St
add_note a f t st = record st { extra_audits = st.extra_audits ++ note a f t ∷ [] }

-- `ToolContext(on_behalf_of=session.user_id, …)` of a message
abbrev pub context_of : AgentSession → Option String → ToolContext
context_of s correlation_id = record {
  on_behalf_of = s.user_id;
  correlation_id = correlation_id;
  session_id = some s.id;
  email = none;
}

abbrev pub no_refs : String → Json
no_refs k = null

abbrev pub refs_of : Dict Json → String → Json
refs_of d k = elim (lookup k d) [ none ↦ null | some v ↦ v ]

-- `reasoning_loop.run` in a state.
unfoldable pub run_loop : Env → Turn → St → LoopResult × St
run_loop env t st = let (result, log) = run env t st.log in (result, record st { log = log })

-- `_action_kind`
unfoldable pub action_kind : LoopResult → AgentActionKind → String
action_kind r outcome =
    if r.awaiting_confirmation
    then "awaiting_confirmation"
    else if r.handoff
    then "handoff"
    else if r.action_taken
    then "action_taken"
    else if r.degraded
    then "degraded"
    else elim outcome [ clarify ↦ "clarify" | _ ↦ "answered" ]

-- `event_for_action_kind` of webhooks/events.py
unfoldable pub event_for_action_kind : String → Option String
event_for_action_kind kind =
    if str_eq kind "answered"
    then some "agent.answered"
    else if str_eq kind "clarify"
    then some "agent.clarify_requested"
    else if str_eq kind "action_taken"
    then some "agent.action_taken"
    else none

abbrev pub add_event : String → List String → Option String → St → St
add_event event_type payload correlation_id st =
    let e : OutboxEvent = record {
      event_type = event_type;
      session_id = st.session.id;
      payload = payload;
      correlation_id = correlation_id;
    } in
    record st { events = st.events ++ e ∷ [] }

-- `_emit_action_event`
unfoldable pub emit_action_event : String → String → Option String → St → St
emit_action_event intent kind correlation_id st = elim (event_for_action_kind kind) [
  | none ↦ st
  | some e ↦ add_event e (intent ∷ kind ∷ []) correlation_id st
]
