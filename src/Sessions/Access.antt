-- ===== src/Sessions/Access.antt =====
-- backend/src/api/sessions/access.py, auth/principal.py, and `_audit_actor` of sessions/service.py:
-- who may see a session, whose it is, and who acts.
use kb_concierge.Prelude.{
  String, Bool, true, false, ◌||◌, Option, none, some, List, any, if◌then◌else◌, str_eq,
}
use kb_concierge.Sessions.Model.{AccessLevel, public_access, logged_access, AgentSession}

pub data PrincipalKind : Type 0 where
  user_kind operator_kind service_kind agent_kind : PrincipalKind

pub record Principal : Type 0 where
  pub user_id : String
  pub kind : PrincipalKind
  pub scopes : List String
  pub on_behalf_of : Option String
  pub email : Option String

abbrev has_scope : String → Principal → Bool
has_scope s p = any (str_eq s) p.scopes

abbrev of_operator : PrincipalKind → Bool
of_operator operator_kind = true
of_operator _ = false

abbrev of_agent : PrincipalKind → Bool
of_agent agent_kind = true
of_agent _ = false

abbrev of_service : PrincipalKind → Bool
of_service service_kind = true
of_service _ = false

unfoldable pub is_operator : Principal → Bool
is_operator p = of_operator p.kind || has_scope "operator" p

unfoldable pub is_agent : Principal → Bool
is_agent p = of_agent p.kind || has_scope "agent" p

unfoldable pub is_staff_admin : Principal → Bool
is_staff_admin p = has_scope "staff_admin" p

abbrev or_own : Option String → String → String
or_own none own = own
or_own (some s) own = s

unfoldable pub effective_user_id : Principal → String
effective_user_id p = or_own p.on_behalf_of p.user_id

abbrev is_owner : Option String → String → Bool
is_owner none s = false
is_owner (some o) s = str_eq o s

unfoldable pub can_access : Principal → AgentSession → Bool
unfolding is_operator is_staff_admin effective_user_id
can_access p session =
    if is_operator p || is_staff_admin p
    then true
    else is_owner session.user_id (effective_user_id p)

unfoldable pub resolve_owner : Principal → Option String × AccessLevel
unfolding effective_user_id
resolve_owner p =
    if of_service p.kind then (none, public_access) else (some (effective_user_id p), logged_access)

-- The sentinel of the agent's service principal.
abbrev pub agent_actor_id : String
agent_actor_id = "00000000-0000-0000-0000-0000000000c1"

unfoldable pub audit_actor : Principal → String
unfolding effective_user_id
audit_actor p = if of_service p.kind then agent_actor_id else effective_user_id p
