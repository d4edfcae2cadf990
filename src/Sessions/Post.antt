-- ===== src/Sessions/Post.antt =====
-- `post_message` and `_forward_to_operator` of backend/src/api/sessions/service.py, on the whole
-- store. An update of the store is given only with a result, since an exception rolls the
-- transaction back.
pub mod Handed
pub mod Owned
use kb_concierge.Prelude.{
  ℕ, ◌+◌, String, Bool, true, false, Option, none, some, List, [], ◌∷◌, ◌++◌, map, if◌then◌else◌,
  str_eq, non_empty, fstring, join, Json, null, Dict, lookup, insert, erase, merge,
}
use kb_concierge.Reasoning.Calls.{
  Env, Log, LoopResult, Observation, Summary, ChoiceOption, ToolContext,
}
use kb_concierge.Reasoning.Context.{forward_to_ticket}
use kb_concierge.Sessions.Model.{
  SessionStatus, active, handed_off, closed, forgotten, TurnRole, AuditAction, AgentSession,
  AgentTurn, AuditLog, OutboxEvent, UserPrefs, Db,
}
use kb_concierge.Sessions.Access.{Principal, can_access, resolve_owner, audit_actor, agent_actor_id}
use kb_concierge.Sessions.State.{Desk, Note, note, St, Routed, context_of}
use kb_concierge.Sessions.Accident.{route}
use kb_concierge.Handoff.{
  Answer, done, refused, not_found, conflict, audit, escalate_in_turn, active_ticket_ref,
  list_turns,
}

-- A request: who, the new text with its mask, the correlation, the time, and the stamp of a record
-- of escalation that it may lead to.
pub record Message : Type 0 where
  pub principal : Principal
  pub session_id : String
  pub content : String
  pub correlation_id : Option String
  pub now : ℕ
  pub stamp : ℕ

-- `PostedTurn`
pub record PostedTurn : Type 0 where
  pub turn : AgentTurn
  pub citations : List Json
  pub awaiting_confirmation : Bool
  pub summary : Option Summary
  pub options : List ChoiceOption

unfoldable pub turn_of : String → TurnRole → String → String → Option String → ℕ → AgentTurn
turn_of sid role content masked correlation_id ts = record {
  session_id = sid;
  role = role;
  content = content;
  content_masked = masked;
  intent = none;
  confidence = none;
  intent_trace = none;
  correlation_id = correlation_id;
  idempotency_key = none;
  ts = ts;
}

-- The agent's answer, one millisecond later.
unfoldable pub agent_turn : Message → String → AgentTurn
agent_turn m reply = turn_of m.session_id TurnRole.agent reply reply m.correlation_id (m.now + 1)

-- The entry for the message, which the principal is the actor of.
unfoldable pub received : Message → AuditLog
received m =
    audit m.session_id (audit_actor m.principal) AuditAction.message_received none none
      m.correlation_id

unfoldable pub by_agent : Message → Note → AuditLog
by_agent m n = audit m.session_id agent_actor_id n.action n.from_value n.to_value m.correlation_id

abbrev responded : Note
responded = note AuditAction.agent_responded none none

abbrev pub forwarded_reply : String
forwarded_reply = "Передал ваше сообщение специалисту — он ответит здесь."

abbrev pub forward_pending_reply : String
forward_pending_reply =
    "Ваше обращение уже у специалиста. Не получилось передать дополнение прямо сейчас — попробуйте чуть позже, либо дождитесь ответа."

abbrev pub feedback_offer : String
feedback_offer = " Помогло ли решение? Напишите «помогло» или «не помогло»."

-- `plain PostedTurn(turn=…)`
abbrev only_turn : AgentTurn → PostedTurn
only_turn t = record {
  turn = t;
  citations = [];
  awaiting_confirmation = false;
  summary = none;
  options = [];
}

module _ (desk : Desk) (emit : Bool) where
  -- What stands in the store after the message was forwarded, or was not.
  unfoldable pub forwarded_db : Message → String → Bool → Db → Db
  forwarded_db m masked ok db = record db {
    turns =
        db.turns
        ++ turn_of m.session_id TurnRole.user m.content masked m.correlation_id m.now
          ∷ agent_turn m (if ok then forwarded_reply else forward_pending_reply)
          ∷ [];
    audits =
        db.audits
        ++ received m
          ∷ (if ok
              then by_agent m
                  (note AuditAction.tool_called (some "ok") (some "support.add_message"))
                ∷ by_agent m responded
                ∷ []
              else by_agent m responded ∷ []);
  }

  -- The call of the ticket's tool, if there is a ticket.
  unfoldable pub forward_call : Option String → String → ToolContext → Log → Bool × Log
  forward_call none masked context log = (false, log)
  forward_call (some ref) masked context log =
      if non_empty ref then forward_to_ticket desk.env ref masked context log else (false, log)

  -- `_forward_to_operator`
  unfoldable pub forward_to_operator :
      AgentSession → Message → Db → Log → Answer (PostedTurn × Db) × Log
  forward_to_operator session m db log =
      let masked = desk.mask_pii m.content in
      let (ok, log') =
        forward_call (active_ticket_ref db m.session_id) masked
          (context_of session m.correlation_id) log in
      (
        done (
          only_turn (agent_turn m (if ok then forwarded_reply else forward_pending_reply)),
          forwarded_db m masked ok db,
        ),
        log',
      )

  observed_note : Observation → Note
  observed_note o =
      note AuditAction.tool_called (some (if o.unavailable then "unavailable" else "ok"))
        (some o.tool)

  tool_of : Observation → String
  tool_of o = o.tool

  taken_note : LoopResult → List Note
  unfolding tool_of
  taken_note r =
      let executed = join "," (map tool_of r.observations) in
      if r.action_taken
      then note AuditAction.action_taken (some "executed")
          (if non_empty executed then some executed else none)
        ∷ []
      else []

  -- The calls and the action of a turn, for the audit log.
  unfoldable pub result_notes : Option LoopResult → List Note
  unfolding observed_note taken_note
  result_notes none = []
  result_notes (some r) = map observed_note r.observations ++ taken_note r

  present : Dict Json → Dict Json
  present [] = []
  present ((k, null) ∷ d) = present d
  present ((k, v) ∷ d) = (k, v) ∷ present d

  -- `session.last_refs` after a turn.
  unfoldable pub new_refs : Option LoopResult → Dict Json → Dict Json
  unfolding present
  new_refs none refs = refs
  new_refs (some r) refs = merge refs (present r.created_refs)

  -- The state before the routing of a message.
  unfoldable pub start : AgentSession → Message → Db → Log → St
  start session m db log = record {
    session = session;
    user_turn =
        turn_of m.session_id TurnRole.user m.content (desk.mask_pii m.content) m.correlation_id
          m.now;
    extra_audits = [];
    prefs = db.prefs;
    events = db.events;
    log = log;
  }

  -- The store after the routing: the turn, the audit log, the session.
  unfoldable pub settle : Message → Routed → Db → Db
  settle m r db =
      let s : AgentSession = record r.st.session {
        last_refs = new_refs r.loop_result r.st.session.last_refs;
      } in
      record db {
        sessions = insert m.session_id s db.sessions;
        turns = db.turns ++ r.st.user_turn ∷ [];
        audits =
            db.audits
            ++ (received m ∷ map (by_agent m) (r.st.extra_audits ++ result_notes r.loop_result));
        events = r.st.events;
        prefs = r.st.prefs;
      }

  ticket_text : Option String → String
  ticket_text none = ""
  ticket_text (some ref) = if non_empty ref then fstring (" Обращение №" ∷ ref ∷ "." ∷ []) else ""

  handoff_reply : Option String → String
  unfolding ticket_text
  handoff_reply ref = fstring (
      "Передаю ваше обращение специалисту."
      ∷ ticket_text ref
      ∷ " Он ответит "
      ∷ desk.eta_text
      ∷ "."
      ∷ [])

  reason_text : Option String → String
  reason_text none = "HANDOFF"
  reason_text (some s) = if non_empty s then s else "HANDOFF"

  -- The escalation that a result asks for; it gives the reply too.
  unfoldable pub escalate_result :
      Option LoopResult → AgentSession → Message → String → Db → Log → String × Db × Log
  unfolding handoff_reply reason_text
  escalate_result none session m reply db log = (reply, db, log)
  escalate_result (some r) session m reply db log =
      let ((record_, db'), log') =
        escalate_in_turn desk.env emit session (reason_text r.handoff_reason) m.stamp
          m.correlation_id db log in
      if r.handoff then (handoff_reply record_.target_ref, db', log') else (reply, db, log)

  abbrev offer : Option LoopResult → String → String
  offer none reply = reply
  offer (some r) reply = if r.action_taken then fstring (reply ∷ feedback_offer ∷ []) else reply

  posted : Option LoopResult → AgentTurn → PostedTurn
  posted none t = only_turn t
  posted (some r) t = record {
    turn = t;
    citations = r.citations;
    awaiting_confirmation = r.awaiting_confirmation;
    summary = r.summary;
    options = r.options;
  }

  -- The end of a turn: the agent's answer.
  unfoldable pub finish :
      Message → Option LoopResult → String × Db × Log → Answer (PostedTurn × Db) × Log
  unfolding posted
  finish m result (reply, db, log) =
      let turn = agent_turn m (offer result reply) in
      (
        done (
          posted result turn,
          record db {
            turns = db.turns ++ turn ∷ [];
            audits = db.audits ++ by_agent m responded ∷ [];
          },
        ),
        log,
      )

  -- A message on an active session.
  unfoldable pub answer_message : AgentSession → Message → Db → Log → Answer (PostedTurn × Db) × Log
  answer_message session m db log =
      let st = start session m db log in
      let r = route desk st.user_turn.content_masked (context_of session m.correlation_id) st in
      finish m r.loop_result (
        escalate_result r.loop_result
          (record r.st.session { last_refs = new_refs r.loop_result r.st.session.last_refs }) m
          r.reply (settle m r db) r.st.log)

  unfoldable pub post_by :
      SessionStatus → AgentSession → Message → Db → Log → Answer (PostedTurn × Db) × Log
  post_by active session m db log = answer_message session m db log
  post_by handed_off session m db log = forward_to_operator session m db log
  post_by closed session m db log = (refused conflict, log)
  post_by forgotten session m db log = (refused conflict, log)

  post_to : Option AgentSession → Message → Db → Log → Answer (PostedTurn × Db) × Log
  post_to none m db log = (refused not_found, log)
  post_to (some session) m db log =
      if can_access m.principal session
      then post_by session.status session m db log
      else (refused not_found, log)

  -- `post_message`
  unfoldable pub post_message : Message → Db → Log → Answer (PostedTurn × Db) × Log
  unfolding post_to
  post_message m db log = post_to (lookup m.session_id db.sessions) m db log
