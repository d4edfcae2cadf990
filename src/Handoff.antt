-- ===== src/Handoff.antt =====
-- backend/src/api/handoff: a dialogue is handed to a person. The tool `handoff.to_operator` opens
-- a ticket; without it the record waits. What comes back is in Replies.
pub mod Laws
pub mod Replies
use kb_concierge.Prelude.{
  ℕ, ◌-◌, String, Bool, true, false, ◌&&◌, not, Option, none, some, List, [], ◌∷◌, ◌++◌, map, keep,
  length, if◌then◌else◌, str_eq, ltb, non_empty, codes, fstring, join, Json, str, Fields, end,
  field, get_field, Dict, lookup, insert,
}
use Prim.Native.String
use Prim.Native.Nat.{zero, suc}
use kb_concierge.Reasoning.Calls.{Env, ToolContext, ToolResult, M, pure, ◌>>=◌, call}
use kb_concierge.Sessions.Model.{
  SessionStatus, active, handed_off, closed, forgotten, TurnRole, AuditAction, AgentSession,
  AgentTurn, AuditLog, OutboxEvent, HandoffTrigger, policy_trigger, user_trigger, operator_trigger,
  HandoffStatus, open_status, pending_status, resolved_status, HandoffRecord, Db,
}
use kb_concierge.Sessions.Access.{Principal, is_operator, audit_actor, can_access, agent_actor_id}

-- What a request is refused with, or that it asks for what there is not.
pub data Refusal : Type 0 where
  not_found conflict : Refusal

pub data Answer {ℓ} (A : Type ℓ) : Type ℓ where
  refused : Refusal → Answer A
  done : A → Answer A

role_value : TurnRole → String
role_value TurnRole.user = "USER"
role_value TurnRole.agent = "AGENT"
role_value TurnRole.operator = "OPERATOR"
role_value TurnRole.tool = "TOOL"
role_value TurnRole.system = "SYSTEM"

snapshot_line : AgentTurn → String
unfolding role_value
snapshot_line t = fstring (role_value t.role ∷ ": " ∷ t.content_masked ∷ [])

drop_chars : ℕ → String → String
drop_chars zero s = s
drop_chars (suc n) String.[] = ""
drop_chars (suc n) (String.◌∷◌ c s) = drop_chars n s

-- `text[-limit:]` of a longer text
last_chars : ℕ → String → String
unfolding drop_chars
last_chars limit s =
    let n = length (codes s) in
    if ltb limit n then fstring ("…\n" ∷ drop_chars (n - limit) s ∷ []) else s

-- `build_context_snapshot` of handoff/snapshot.py: masked texts only.
unfoldable pub build_context_snapshot : List AgentTurn → String
unfolding snapshot_line last_chars
build_context_snapshot turns =
    let text = last_chars 12000 (join "\n" (map snapshot_line turns)) in
    if non_empty text then text else "(пустой диалог)"

of_session : String → AgentTurn → Bool
of_session sid t = str_eq t.session_id sid

-- `list_turns`
unfoldable pub list_turns : Db → String → List AgentTurn
unfolding of_session
list_turns db sid = keep (of_session sid) db.turns

abbrev is_resolved : HandoffStatus → Bool
is_resolved resolved_status = true
is_resolved _ = false

newer : HandoffRecord → Option HandoffRecord → HandoffRecord
newer h none = h
newer h (some r) = if ltb r.stamp h.stamp then h else r

-- `latest_open_for_session`: of the records that are not resolved, the one with the greatest stamp.
unfoldable pub latest_open : String → List HandoffRecord → Option HandoffRecord
unfolding newer
latest_open sid [] = none
latest_open sid (h ∷ hs) =
    let rest = latest_open sid hs in
    if str_eq h.session_id sid && not (is_resolved h.status) then some (newer h rest) else rest

-- `active_ticket_ref`
unfoldable pub active_ticket_ref : Db → String → Option String
active_ticket_ref db sid = elim (latest_open sid db.handoffs) [
  | none ↦ none
  | some h ↦ h.target_ref
]

ticket_of : Option Json → Option String
ticket_of (some (str s)) = some s
ticket_of _ = none

opened : Option ToolResult → Option String × Bool
unfolding ticket_of
opened none = (none, true)
opened (some r) = (ticket_of (get_field "ticket_id" r.data_fields), r.unavailable)

abbrev text_or : Option String → String → String
text_or none d = d
text_or (some s) d = if non_empty s then s else d

-- `_open_ticket`: the ticket, and that there was no service.
unfoldable pub open_ticket :
    Env → AgentSession → String → String → Option String → M (Option String × Bool)
unfolding opened
open_ticket env session reason snapshot correlation_id =
    let context : ToolContext = record {
      on_behalf_of = session.user_id;
      correlation_id = correlation_id;
      session_id = none;
      email = none;
    } in
    let payload = field "reason" (str reason) (
      field "context_masked" (str snapshot) (
        field "session_ref" (str session.id)
          (field "idempotency_key" (str (text_or correlation_id session.id)) end))) in
    if env.registered "handoff.to_operator"
    then (do result ← call env "handoff.to_operator" payload context; pure (opened result))
    else pure (none, true)

abbrev pub audit :
    String → String → AuditAction → Option String → Option String → Option String → AuditLog
audit sid actor a f t correlation_id = record {
  session_id = sid;
  actor_id = actor;
  action = a;
  from_value = f;
  to_value = t;
  correlation_id = correlation_id;
}

abbrev trigger_value : HandoffTrigger → String
trigger_value policy_trigger = "POLICY"
trigger_value user_trigger = "USER"
trigger_value operator_trigger = "OPERATOR"

abbrev status_value : HandoffStatus → String
status_value open_status = "OPEN"
status_value pending_status = "PENDING"
status_value resolved_status = "RESOLVED"

-- What is escalated: who asks, why, the text that another dialogue sends along (masked), and the
-- stamp of its record.
pub record Escalation : Type 0 where
  pub trigger : HandoffTrigger
  pub reason : String
  pub actor_id : String
  pub external_masked : Option String
  pub stamp : ℕ

-- The snapshot for the ticket.
unfoldable pub snapshot_for : Option String → List AgentTurn → String
snapshot_for none turns = build_context_snapshot turns
snapshot_for (some external) turns =
    if non_empty external
    then elim turns [
      | [] ↦ external
      | t ∷ ts ↦ fstring (external ∷ "\n\n" ∷ build_context_snapshot (t ∷ ts) ∷ [])
    ]
    else build_context_snapshot turns

unfoldable pub handoff_record :
    AgentSession → Escalation → Option String × Bool → ℕ → Option String → HandoffRecord
handoff_record session e (ticket, unavailable) n correlation_id = record {
  session_id = session.id;
  trigger = e.trigger;
  status = if unavailable then pending_status else open_status;
  reason = e.reason;
  target_ref = ticket;
  snapshot_turns = n;
  correlation_id = correlation_id;
  stamp = e.stamp;
}

-- `handoff_payload`; no ticket is the empty text.
abbrev created_events : Bool → HandoffRecord → List OutboxEvent
created_events false r = []
created_events true r =
    record {
      event_type = "agent.handoff_created";
      session_id = r.session_id;
      payload = trigger_value r.trigger ∷ status_value r.status ∷ text_or r.target_ref "" ∷ [];
      correlation_id = r.correlation_id;
    }
    ∷ []

-- The rows that an escalation writes. `emit` is the setting `emit_events`.
unfoldable pub hand_over : Bool → AgentSession → String → HandoffRecord → Db → Db
hand_over emit session actor r db = record db {
  handoffs = db.handoffs ++ r ∷ [];
  events = db.events ++ created_events emit r;
  sessions = insert session.id (record session { status = handed_off }) db.sessions;
  audits =
      db.audits
      ++ audit session.id actor AuditAction.handoff_created (some (trigger_value r.trigger))
          (some (text_or r.target_ref "PENDING")) r.correlation_id
        ∷ [];
}

-- `_escalate`
unfoldable pub escalate :
    Env → Bool → AgentSession → Escalation → Option String → Db → M (HandoffRecord × Db)
escalate env emit session e correlation_id db = do
  let turns = list_turns db session.id
  let snapshot = snapshot_for e.external_masked turns
  ticket ← open_ticket env session e.reason snapshot correlation_id
  let r = handoff_record session e ticket (length turns) correlation_id
  pure (r, hand_over emit session e.actor_id r db)

abbrev by_policy : String → ℕ → Escalation
by_policy reason stamp = record {
  trigger = policy_trigger;
  reason = reason;
  actor_id = agent_actor_id;
  external_masked = none;
  stamp = stamp;
}

-- `escalate_in_turn`
unfoldable pub escalate_in_turn :
    Env → Bool → AgentSession → String → ℕ → Option String → Db → M (HandoffRecord × Db)
escalate_in_turn env emit session reason stamp correlation_id db =
    escalate env emit session (by_policy reason stamp) correlation_id db

abbrev by_principal : Principal → Option String → ℕ → Escalation
by_principal p external stamp =
    let asked_by_operator = is_operator p in
    record {
      trigger = if asked_by_operator then operator_trigger else user_trigger;
      reason = if asked_by_operator then "OPERATOR_REQUESTED" else "USER_REQUESTED";
      actor_id = audit_actor p;
      external_masked = external;
      stamp = stamp;
    }

force_with :
    Env
    → Bool
    → Principal
    → Option AgentSession
    → Option String
    → Option String
    → ℕ
    → Db
    → M (Answer (HandoffRecord × Db))
force_with env emit p none correlation_id external stamp db = pure (refused not_found)
force_with env emit p (some session) correlation_id external stamp db =
    if can_access p session
    then (do
      result ← escalate env emit session (by_principal p external stamp) correlation_id db
      pure (done result))
    else pure (refused not_found)

-- `force_handoff`; `external` is masked.
unfoldable pub force_handoff :
    Env
    → Bool
    → Principal
    → String
    → Option String
    → Option String
    → ℕ
    → Db
    → M (Answer (HandoffRecord × Db))
unfolding force_with
force_handoff env emit p sid correlation_id external stamp db =
    force_with env emit p (lookup sid db.sessions) correlation_id external stamp db
