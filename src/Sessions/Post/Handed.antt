-- ===== src/Sessions/Post/Handed.antt =====
-- A message to a session that is in a person's hands.
use kb_concierge.Prelude.{
  str, field, end, List, String, Bool, true, ◌≡◌, refl, ◌⊎◌, inl, inr, Option, none, some, [], ◌∷◌,
  ◌++◌, non_empty, lookup, Bool-cases,
}
use kb_concierge.Reasoning.Calls.{Env, Log, ToolContext, call}
use kb_concierge.Reasoning.Context.{forward_to_ticket}
use kb_concierge.Sessions.Model.{AgentSession, AgentTurn, AuditLog, Db, handed_off}
use kb_concierge.Sessions.Access.{can_access}
use kb_concierge.Sessions.State.{Desk, context_of}
use kb_concierge.Sessions.Post.{
  Message, PostedTurn, post_message, post_by, forward_to_operator, forward_call, forwarded_db,
  post_to, turn_of,
}
use kb_concierge.Handoff.{done, active_ticket_ref}

-- No call was added, or the one that adds the masked text to the session's ticket.
pub OnlyForwards : Option String → String → ToolContext → Log → Log → Type 0
OnlyForwards ticket masked context log log' =
    (log' ≡ log)
    ⊎ ((ref : String) × (ticket ≡ some ref)
        × (log'
            ≡ log
              ++ record {
                tool = "support.add_message";
                payload = field "ticket_id" (str ref) (field "body" (str masked) end);
                context = context;
              }
                ∷ []))

-- The store has two turns more, the user's message with its mask and the agent's answer, and
-- entries of the audit; all else is as it was.
pub OnlyRecords : String → Message → PostedTurn → Db → Db → Type 0
OnlyRecords masked m posted db db' =
    (db'.sessions ≡ db.sessions)
    × (db'.handoffs ≡ db.handoffs)
    × (db'.events ≡ db.events)
    × (db'.prefs ≡ db.prefs)
    × ((said : AgentTurn) × (db'.turns ≡ db.turns ++ said ∷ posted.turn ∷ [])
        × (said.session_id ≡ m.session_id)
        × (said.content ≡ m.content)
        × (said.content_masked ≡ masked))
    × ((entries : List AuditLog) × (db'.audits ≡ db.audits ++ entries))

forward-only :
    (env : Env) (ref body : String) (context : ToolContext) (log : Log)
    → OnlyForwards (some ref) body context log (forward_to_ticket env ref body context log).1
unfolding forward_to_ticket call OnlyForwards
forward-only env ref body context log = elim (Bool-cases (env.registered "support.add_message")) [
  | inl r ↦ rw r (rw r (inr (ref, refl, refl)))
  | inr r ↦ rw r (inl refl)
]

forward_call-only :
    (desk : Desk) (emit : Bool) (ref : Option String) (body : String) (context : ToolContext)
    (log : Log)
    → OnlyForwards ref body context log (forward_call desk emit ref body context log).1
unfolding forward_call OnlyForwards
forward_call-only desk emit none body context log = inl refl
forward_call-only desk emit (some ref) body context log = elim (Bool-cases (non_empty ref)) [
  | inl r ↦ rw r (forward-only desk.env ref body context log)
  | inr r ↦ rw r (inl refl)
]

-- A message to a session that is in a person's hands, from one who may see it. The agent decides
-- nothing: the store gets the two turns and entries of the audit, and nothing else of it changes.
-- At most one call is made, which adds the masked text of the message to the ticket of the
-- session's latest open record.
pub post_message-handed_off :
    (desk : Desk) (emit : Bool) (m : Message) (db : Db) (log : Log) (s : AgentSession)
    → lookup m.session_id db.sessions ≡ some s
    → can_access m.principal s ≡ true
    → s.status ≡ handed_off
    → OnlyForwards
        (active_ticket_ref db m.session_id)
        (desk.mask_pii m.content)
        (context_of s m.correlation_id)
        log
        (post_message desk emit m db log).1
      × ((posted : PostedTurn) × (db' : Db) × ((post_message desk emit m db log).0
            ≡ done (posted, db'))
          × OnlyRecords (desk.mask_pii m.content) m posted db db')
unfolding post_message post_to post_by forward_to_operator forwarded_db turn_of OnlyRecords
post_message-handed_off desk emit m db log s found sees status = rw found (
    rw sees (
      rw status (
        forward_call-only desk emit _ _ _ log,
        (_, _, refl, (refl, refl, refl, refl, (_, refl, refl, refl, refl), (_, refl))),
      )))
