-- ===== src/Sessions/Post/Owned.antt =====
-- `create_session`, `get_session` and `forget_session` of backend/src/api/sessions/service.py, on
-- the whole store.
pub mod Forget
use kb_concierge.Prelude.{
  ℕ, ◌+◌, String, Bool, true, false, Option, none, some, List, [], ◌∷◌, ◌++◌, map, if◌then◌else◌,
  str_eq, non_empty, fstring, join, Json, null, Dict, lookup, insert, erase, merge,
}
use kb_concierge.Reasoning.Calls.{
  Env, Log, LoopResult, Observation, Summary, ChoiceOption, ToolContext,
}
use kb_concierge.Reasoning.Context.{forward_to_ticket}
use kb_concierge.Sessions.Model.{
  SessionStatus, active, handed_off, closed, forgotten, TurnRole, AuditAction, AgentSession,
  AgentTurn, AuditLog, OutboxEvent, UserPrefs, Db,
}
use kb_concierge.Sessions.Access.{Principal, can_access, resolve_owner, audit_actor, agent_actor_id}
use kb_concierge.Sessions.State.{Desk, Note, note, St, Routed, context_of}
use kb_concierge.Sessions.Accident.{route}
use kb_concierge.Handoff.{
  Answer, done, refused, not_found, conflict, audit, escalate_in_turn, active_ticket_ref,
  list_turns,
}

-- `create_session`; `sid` is the new identifier.
unfoldable pub create_session :
    Desk → Principal → Option String → Option String → String → ℕ → Db → AgentSession × Db
create_session desk p channel correlation_id sid now db =
    let (owner, level) = resolve_owner p in
    let s : AgentSession = record {
      id = sid;
      user_id = owner;
      channel = channel;
      status = active;
      access_level = level;
      summary = none;
      pending_action = none;
      flow_state = none;
      low_confidence_streak = 0;
      last_refs = [];
      correlation_id = correlation_id;
      expires_at = now + elim owner [ none ↦ desk.anon_ttl | some u ↦ desk.auth_ttl ];
      forgotten_at = none;
    } in
    (
      s,
      record db {
        sessions = insert sid s db.sessions;
        audits =
            db.audits
            ++ audit sid (audit_actor p) AuditAction.session_created none (some "ACTIVE")
                correlation_id
              ∷ [];
      },
    )

see : Principal → Option AgentSession → List AgentTurn → Answer (AgentSession × List AgentTurn)
see p none turns = refused not_found
see p (some s) turns = if can_access p s then done (s, turns) else refused not_found

-- `get_session`
unfoldable pub get_session : Principal → String → Db → Answer (AgentSession × List AgentTurn)
unfolding see
get_session p sid db = see p (lookup sid db.sessions) (list_turns db sid)

anonymize : String → AgentTurn → AgentTurn
anonymize sid t = if str_eq t.session_id sid then record t { content = t.content_masked } else t

-- `anonymize_turns` of sessions/repository.py
unfoldable pub anonymize_turns : String → List AgentTurn → List AgentTurn
unfolding anonymize
anonymize_turns sid turns = map (anonymize sid) turns

status_value : SessionStatus → String
status_value active = "ACTIVE"
status_value handed_off = "HANDED_OFF"
status_value closed = "CLOSED"
status_value forgotten = "FORGOTTEN"

without_prefs : Option String → Dict UserPrefs → Dict UserPrefs
without_prefs none prefs = prefs
without_prefs (some user) prefs = erase user prefs

-- The row of a session that is forgotten.
unfoldable pub forgotten_row : AgentSession → ℕ → AgentSession
forgotten_row session now = record session {
  status = forgotten;
  forgotten_at = some now;
  summary = none;
}

unfoldable pub forgotten_db : Principal → AgentSession → String → Option String → ℕ → Db → Db
unfolding status_value without_prefs
forgotten_db p session sid correlation_id now db = record db {
  sessions = insert sid (forgotten_row session now) db.sessions;
  turns = anonymize_turns sid db.turns;
  prefs = without_prefs session.user_id db.prefs;
  audits =
      db.audits
      ++ audit sid (audit_actor p) AuditAction.session_forgotten
          (some (status_value session.status)) (some "FORGOTTEN") correlation_id
        ∷ [];
}

forget_found : Principal → Option AgentSession → String → Option String → ℕ → Db → Answer Db
forget_found p none sid correlation_id now db = refused not_found
forget_found p (some session) sid correlation_id now db =
    if can_access p session
    then done (forgotten_db p session sid correlation_id now db)
    else refused not_found

-- `forget_session`
unfoldable pub forget_session : Principal → String → Option String → ℕ → Db → Answer Db
unfolding forget_found
forget_session p sid correlation_id now db =
    forget_found p (lookup sid db.sessions) sid correlation_id now db
