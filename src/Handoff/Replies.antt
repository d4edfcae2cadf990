-- ===== src/Handoff/Replies.antt =====
-- backend/src/api/handoff/service.py: the replies of an operator, and the notices of a ticket's
-- status.
pub mod Again
use kb_concierge.Prelude.{
  ℕ, ◌-◌, String, Bool, true, false, ◌&&◌, not, Option, none, some, List, [], ◌∷◌, ◌++◌, map, keep,
  length, if◌then◌else◌, str_eq, ltb, non_empty, codes, fstring, join, Json, str, Fields, end,
  field, get_field, Dict, lookup, insert,
}
use Prim.Native.String
use Prim.Native.Nat.{zero, suc}
use kb_concierge.Reasoning.Calls.{Env, ToolContext, ToolResult, M, pure, ◌>>=◌, call}
use kb_concierge.Sessions.Model.{
  SessionStatus, active, handed_off, closed, forgotten, TurnRole, AuditAction, AgentSession,
  AgentTurn, AuditLog, OutboxEvent, HandoffTrigger, policy_trigger, user_trigger, operator_trigger,
  HandoffStatus, open_status, pending_status, resolved_status, HandoffRecord, Db,
}
use kb_concierge.Sessions.Access.{Principal, is_operator, audit_actor, can_access, agent_actor_id}
use kb_concierge.Handoff.{
  Answer, done, refused, not_found, conflict, of_session, latest_open, audit,
}

has_key : String → String → AgentTurn → Bool
unfolding of_session
has_key sid k t = of_session sid t && elim t.idempotency_key [ none ↦ false | some j ↦ str_eq j k ]

first_with : String → String → List AgentTurn → Option AgentTurn
unfolding has_key
first_with sid k [] = none
first_with sid k (t ∷ ts) =
    let rest = first_with sid k ts in if has_key sid k t then some t else rest

-- `turn_by_idempotency_key`
unfoldable pub turn_by_idempotency_key : Db → String → Option String → Option AgentTurn
unfolding first_with
turn_by_idempotency_key db sid none = none
turn_by_idempotency_key db sid (some k) = first_with sid k db.turns

-- What comes from outside: a text with its mask, the reference, the keys, and the time.
pub record Incoming : Type 0 where
  pub message : String
  pub masked : String
  pub ref : Option String
  pub correlation_id : Option String
  pub idempotency_key : Option String
  pub now : ℕ

unfoldable pub incoming_turn : String → TurnRole → Incoming → AgentTurn
incoming_turn sid role m = record {
  session_id = sid;
  role = role;
  content = m.message;
  content_masked = m.masked;
  intent = none;
  confidence = none;
  intent_trace = none;
  correlation_id = m.correlation_id;
  idempotency_key = m.idempotency_key;
  ts = m.now;
}

abbrev ref_or : Option String → Option String → Option String
ref_or none d = d
ref_or (some s) d = if non_empty s then some s else d

-- The reply is a new one.
unfoldable pub accept_reply : Principal → String → HandoffRecord → Incoming → Db → AgentTurn × Db
accept_reply p sid h m db =
    let turn = incoming_turn sid TurnRole.operator m in
    (
      turn,
      record db {
        turns = db.turns ++ turn ∷ [];
        audits =
            db.audits
            ++ audit sid p.user_id AuditAction.operator_replied (ref_or m.ref h.target_ref) none
                m.correlation_id
              ∷ [];
      },
    )

reply_to :
    Principal
    → String
    → Option AgentSession
    → Option HandoffRecord
    → Option AgentTurn
    → Incoming
    → Db
    → Answer (AgentTurn × Db)
reply_to p sid none h existing m db = refused not_found
reply_to p sid (some s) none existing m db = refused not_found
reply_to p sid (some s) (some h) (some t) m db = done (t, db)
reply_to p sid (some s) (some h) none m db = done (accept_reply p sid h m db)

-- `operator_reply`
unfoldable pub operator_reply : Principal → String → Incoming → Db → Answer (AgentTurn × Db)
unfolding reply_to
operator_reply p sid m db =
    reply_to p sid (lookup sid db.sessions) (latest_open sid db.handoffs)
      (turn_by_idempotency_key db sid m.idempotency_key) m db

head_of : Option String → String
head_of none = ""
head_of (some r) = if non_empty r then fstring ("Заявка №" ∷ r ∷ ": " ∷ []) else ""

-- The text of a notice, before it is masked.
unfoldable pub notice : Incoming → String
unfolding head_of
notice m = fstring (head_of m.ref ∷ m.message ∷ [])

notify :
    (String → String)
    → Principal
    → String
    → Option AgentSession
    → Incoming
    → Option String
    → Db
    → Answer (AgentTurn × Db)
notify mask p sid none m status db = refused not_found
notify mask p sid (some s) m status db =
    let text = notice m in
    let full : Incoming = record m { message = text; masked = mask text; idempotency_key = none } in
    let turn = incoming_turn sid TurnRole.system full in
    done (
      turn,
      record db {
        turns = db.turns ++ turn ∷ [];
        audits =
            db.audits
            ++ audit sid p.user_id AuditAction.status_pushed m.ref status m.correlation_id ∷ [];
      },
    )

-- `status_update`; `mask` is `mask_pii`.
unfoldable pub status_update :
    (String → String) → Principal → String → Incoming → Option String → Db → Answer (AgentTurn × Db)
unfolding notify
status_update mask p sid m status db = notify mask p sid (lookup sid db.sessions) m status db
