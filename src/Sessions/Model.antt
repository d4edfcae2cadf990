-- ===== src/Sessions/Model.antt =====
-- backend/src/api/sessions/{enums,models}.py and handoff/{enums,models}.py: the rows that the
-- service reads and writes. Times are in milliseconds. `flow_state` and `pending_action` are JSON
-- columns that only the service writes; they have the keys that it writes.
use kb_concierge.Prelude.{ℕ, String, Option, List, Json, Dict}
use kb_concierge.Intent.{Intent}
use kb_concierge.Intent.Engine.{IntentOutcome}
use kb_concierge.Policy.Kinds.{DecisionReason}
use kb_concierge.Policy.Engine.{PolicyDecision}
use kb_concierge.Reasoning.Calls.{LoopResult}
use kb_concierge.Reasoning.Detect.{Confirmation, Feedback}

pub data SessionStatus : Type 0 where
  active handed_off closed forgotten : SessionStatus

pub data AccessLevel : Type 0 where
  public_access logged_access agent_access staff legal hr_restricted : AccessLevel

pub data TurnRole : Type 0 where
  user agent operator tool system : TurnRole

pub data AuditAction : Type 0 where
  session_created message_received intent_classified policy_decision tool_called : AuditAction
  confirmation_requested action_taken order_field_requested order_reclassified : AuditAction
  emergency_detected agent_responded handoff_created operator_replied status_pushed : AuditAction
  session_forgotten : AuditAction

-- An order that is being collected: `{category, answers, original_masked}`.
pub record OrderDraft : Type 0 where
  pub category : String
  pub answers : Dict String
  pub original_masked : String

-- `flow_state`; `order` also has the field that was asked for.
pub data FlowState : Type 0 where
  order : OrderDraft → Option String → FlowState
  emergency : String → String → String → String → FlowState

-- `pending_action`
pub record PendingAction : Type 0 where
  pub tools : List Json
  pub intent : Intent
  pub query_masked : String
  pub policy_version : String
  pub reason : DecisionReason
  pub order : Option OrderDraft

pub record AgentSession : Type 0 where
  pub id : String
  pub user_id : Option String
  pub channel : Option String
  pub status : SessionStatus
  pub access_level : AccessLevel
  pub summary : Option String
  pub pending_action : Option PendingAction
  pub flow_state : Option FlowState
  pub low_confidence_streak : ℕ
  pub last_refs : Dict Json
  pub correlation_id : Option String
  pub expires_at : ℕ
  pub forgotten_at : Option ℕ

-- `intent_trace` of a user's message, by the branch that writes it.
pub data Trace : Type 0 where
  feedback_trace : Feedback → Trace
  asked_trace : IntentOutcome → PolicyDecision → String → Trace
  routed_trace : IntentOutcome → PolicyDecision → LoopResult → Trace
  interrupted_trace : PolicyDecision → LoopResult → Trace
  order_trace : String → List String → List String → Option LoopResult → Trace
  edit_trace : Option String → Trace
  emergency_trace : String → String → String → Trace
  decision_trace : String → Confirmation → Trace
  confirmation_trace : Confirmation → Intent → Option LoopResult → Trace

pub record AgentTurn : Type 0 where
  pub session_id : String
  pub role : TurnRole
  pub content : String
  pub content_masked : String
  pub intent : Option String
  pub confidence : Option ℕ
  pub intent_trace : Option Trace
  pub correlation_id : Option String
  pub idempotency_key : Option String
  pub ts : ℕ

pub record AuditLog : Type 0 where
  pub session_id : String
  pub actor_id : String
  pub action : AuditAction
  pub from_value : Option String
  pub to_value : Option String
  pub correlation_id : Option String

pub record OutboxEvent : Type 0 where
  pub event_type : String
  pub session_id : String
  pub payload : List String
  pub correlation_id : Option String

-- `{category, fields}` of a user.
pub record UserPrefs : Type 0 where
  pub category : String
  pub fields : Dict String

pub data HandoffTrigger : Type 0 where
  policy_trigger user_trigger operator_trigger : HandoffTrigger

pub data HandoffStatus : Type 0 where
  open_status pending_status resolved_status : HandoffStatus

-- `stamp` is the place of `created_at` and, within it, of `id` in the order of the queries, both of
-- which come from outside.
pub record HandoffRecord : Type 0 where
  pub session_id : String
  pub trigger : HandoffTrigger
  pub status : HandoffStatus
  pub reason : String
  pub target_ref : Option String
  pub snapshot_turns : ℕ
  pub correlation_id : Option String
  pub stamp : ℕ

-- The tables: turns, audit, outbox and handoffs are appended to, oldest first.
pub record Db : Type 0 where
  pub sessions : Dict AgentSession
  pub turns : List AgentTurn
  pub audits : List AuditLog
  pub events : List OutboxEvent
  pub prefs : Dict UserPrefs
  pub handoffs : List HandoffRecord
