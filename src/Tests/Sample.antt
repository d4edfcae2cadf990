-- ===== src/Tests/Sample.antt =====
-- The data of the runs: services that answer, a desk over them, a user and a dialogue.
use kb_concierge.Prelude.{
  String, Bool, true, false, Option, none, some, List, [], ◌∷◌, Json, str, null, end, field,
}
use kb_concierge.Intent.{Intent}
use kb_concierge.Policy.Kinds.{DecisionReason, tool_call}
use kb_concierge.Policy.Engine.{PolicyDecision}
use kb_concierge.Policy.Matrix.{built_in}
use kb_concierge.Reasoning.Calls.{Env, Log, Call, ToolContext, ToolResult}
use kb_concierge.Reasoning.Loop.{Turn}
use kb_concierge.Intent.Engine.{IntentOutcome}
use kb_concierge.Sessions.Model.{
  AgentSession, AgentTurn, TurnRole, OrderDraft, PendingAction, active, AccessLevel, Db,
}
use kb_concierge.Sessions.State.{Desk, St}
use kb_concierge.Sessions.Access.{Principal, user_kind}
use kb_concierge.Sessions.Post.{Message}

abbrev pub answer_ok : Log → Call → Option ToolResult
answer_ok log c = some (record {
  data_fields = field "request_id" (str "42") (field "ticket_id" (str "7") end);
  unavailable = false;
})

abbrev render : Json → String
render (str s) = s
render _ = "42"

abbrev pub env : Env
env = record {
  registered = λ name. true;
  run = answer_ok;
  render = render;
  reply = λ key. key;
  pricing_slots = λ q. record { rent_amount_rub = none; contract_year = none; side = none };
  max_tool_calls = 4;
  rag_answer = false;
}

abbrev pub silent : Env
silent = record env { run = λ log c. none }

abbrev pub context : ToolContext
context = record {
  on_behalf_of = some "u1";
  correlation_id = none;
  session_id = some "s1";
  email = none;
}

abbrev pub order_tools : List Json
order_tools = str "partners.create_request" ∷ str "partners.classify" ∷ str "partners.dispatch" ∷ []

abbrev pub order_decision : PolicyDecision
order_decision = record {
  outcome = tool_call;
  reason = DecisionReason.paid_needs_confirmation;
  policy_version = "1.1";
  allowed_tools = order_tools;
  requires_confirmation = true;
}

abbrev pub turn : Bool → Turn
turn confirmed = record {
  decision = order_decision;
  intent = Intent.partner_service;
  query_masked = "уборка";
  context = context;
  confirmed = confirmed;
  status_refs = λ k. null;
}

abbrev pub outcome : IntentOutcome
outcome = record {
  intent = Intent.partner_service;
  confidence = 9000;
  method = "rules";
  model = "";
  version = "1";
  slots = field "category" (str "CLEANING") end;
}

abbrev pub desk : Desk
desk = record {
  env = env;
  matrix = built_in;
  classify = λ text. some outcome;
  mask_pii = λ text. text;
  matches = record { area = λ t. none; date_time = λ t. none };
  trim = λ t. t;
  playbook = record {
    entries = [];
    triggers = [];
    info_suppress = [];
    uk_with = λ c. c;
    uk_without = "";
    number = λ n. "";
  };
  webhooks = false;
  eta_text = "в течение часа";
  auth_ttl = 1000;
  anon_ttl = 100;
}

abbrev pub session : AgentSession
session = record {
  id = "s1";
  user_id = some "u1";
  channel = none;
  status = active;
  access_level = AccessLevel.logged_access;
  summary = none;
  pending_action = none;
  flow_state = none;
  low_confidence_streak = 0;
  last_refs = [];
  correlation_id = none;
  expires_at = 1000;
  forgotten_at = none;
}

abbrev pub draft : OrderDraft
draft = record { category = "CLEANING"; answers = []; original_masked = "уборка" }

abbrev pub proposal : PendingAction
proposal = record {
  tools = order_tools;
  intent = Intent.partner_service;
  query_masked = "уборка";
  policy_version = "1.1";
  reason = DecisionReason.paid_needs_confirmation;
  order = none;
}

abbrev pub user_turn : AgentTurn
user_turn = record {
  session_id = "s1";
  role = TurnRole.user;
  content = "Иванов, да";
  content_masked = "***, да";
  intent = none;
  confidence = none;
  intent_trace = none;
  correlation_id = none;
  idempotency_key = none;
  ts = 0;
}

abbrev pub start_of : AgentSession → St
start_of s = record {
  session = s;
  user_turn = user_turn;
  extra_audits = [];
  prefs = [];
  events = [];
  log = [];
}

abbrev pub user : Principal
user = record { user_id = "u1"; kind = user_kind; scopes = []; on_behalf_of = none; email = none }

abbrev pub message : Message
message = record {
  principal = user;
  session_id = "s1";
  content = "да";
  correlation_id = none;
  now = 5;
  stamp = 2;
}

abbrev pub db_of : AgentSession → Db
db_of s = record {
  sessions = ("s1", s) ∷ [];
  turns = user_turn ∷ [];
  audits = [];
  events = [];
  prefs = [];
  handoffs = [];
}
