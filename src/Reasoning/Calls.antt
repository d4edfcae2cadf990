-- ===== src/Reasoning/Calls.antt =====
-- backend/src/api/tools/{base,registry}.py and the state of a turn in reasoning/loop.py: a tool
-- call may fail, and every call that reaches a tool stands in the log. The tools themselves, with
-- the services behind them, are the parameter `run`: what they give may depend on all calls so far.
use kb_concierge.Prelude.{
  ℕ, String, Bool, true, false, Option, none, some, List, [], ◌∷◌, ◌++◌, if◌then◌else◌, Json,
  Fields, end, field, Codes, codes, fstring, Dict,
}
use kb_concierge.Intent.Slots.{PricingSlots}
use kb_concierge.Policy.Guardrails.{wrap_untrusted}

pub record ToolContext : Type 0 where
  pub on_behalf_of : Option String
  pub correlation_id : Option String
  pub session_id : Option String
  pub email : Option String

pub record ToolResult : Type 0 where
  pub data_fields : Fields
  pub unavailable : Bool

pub record Call : Type 0 where
  pub tool : String
  pub payload : Fields
  pub context : ToolContext

-- The calls that have reached a tool, oldest first.
abbrev pub Log : Type 0
Log = List Call

-- What the loop is built over: `registered` is `registry.get(name) is not None`; `run` is the call
-- of a registered tool, and `none` an exception of it; `render` is Python's `str` of a JSON value;
-- `reply` is the table of texts; `pricing_slots` is `extract_pricing_slots`. The last two fields are the limit and the switch of the loop.
pub record Env : Type 0 where
  pub registered : String → Bool
  pub run : Log → Call → Option ToolResult
  pub render : Json → String
  pub reply : String → String
  pub pricing_slots : String → PricingSlots
  pub max_tool_calls : ℕ
  pub rag_answer : Bool

-- A computation that calls tools.
abbrev pub M {ℓ} : Type ℓ → Type ℓ
M A = Log → A × Log

abbrev pub pure {ℓ} : {A : Type ℓ} → A → M A
pure a log = (a, log)

infixl 5 ◌>>=◌
abbrev pub ◌>>=◌ {ℓ κ} : {A : Type ℓ} {B : Type κ} → M A → (A → M B) → M B
◌>>=◌ m f log = let (a, log') = m log in f a log'

-- `ToolRegistry.call`; `none` is any exception, the one of an unknown tool included.
unfoldable pub call : Env → String → Fields → ToolContext → M (Option ToolResult)
call env name payload context log =
    let c : Call = record { tool = name; payload = payload; context = context } in
    if env.registered name then (env.run log c, log ++ c ∷ []) else (none, log)

pub record Observation : Type 0 where
  pub tool : String
  pub unavailable : Bool
  pub summary : Codes

pub record ChoiceOption : Type 0 where
  pub id : String
  pub label : String

-- The card of a proposed order.
pub record Summary : Type 0 where
  pub category : String
  pub fields : Dict String
  pub address : Option String
  pub price_range : Option String
  pub eta : Option String

pub record LoopResult : Type 0 where
  pub reply : String
  pub observations : List Observation
  pub tool_calls : ℕ
  pub steps : ℕ
  pub degraded : Bool
  pub handoff : Bool
  pub handoff_reason : Option String
  pub awaiting_confirmation : Bool
  pub action_taken : Bool
  pub citations : List Json
  pub created_refs : Dict Json
  pub summary : Option Summary
  pub options : List ChoiceOption

-- `LoopResult(reply=reply)`
abbrev pub plain_result : String → LoopResult
plain_result reply = record {
  reply = reply;
  observations = [];
  tool_calls = 0;
  steps = 1;
  degraded = false;
  handoff = false;
  handoff_reason = none;
  awaiting_confirmation = false;
  action_taken = false;
  citations = [];
  created_refs = [];
  summary = none;
  options = [];
}

-- `LoopResult(reply=reply, observations=[obs], tool_calls=1, steps=2)`
abbrev pub one_call : String → Observation → LoopResult
one_call reply obs = record (plain_result reply) {
  observations = obs ∷ [];
  tool_calls = 1;
  steps = 2;
}

abbrev pub one_call_degraded : String → Observation → LoopResult
one_call_degraded reply obs = record (one_call reply obs) { degraded = true }

-- `{key: value}`
abbrev pub payload_of : String → Json → Fields
payload_of k v = field k v end

-- `wrap_untrusted(f"{name}: {'unavailable' if … else 'ok'}")`
abbrev pub status_summary : String → Bool → Codes
status_summary name unavailable =
    wrap_untrusted
      (codes (fstring (name ∷ ": " ∷ (if unavailable then "unavailable" else "ok") ∷ [])))

-- `Observation(tool=name, unavailable=True, summary=wrap_untrusted("error"))`
abbrev pub failed_obs : String → Observation
failed_obs name = record {
  tool = name;
  unavailable = true;
  summary = wrap_untrusted (codes "error");
}

observed : String → Option ToolResult → Fields × Observation
observed name none = (end, failed_obs name)
observed name (some r) = (
  r.data_fields,
  record { tool = name; unavailable = r.unavailable; summary = status_summary name r.unavailable },
)

-- `ReasoningLoop._call_tool`
unfoldable pub call_tool : Env → String → Fields → ToolContext → M (Fields × Observation)
unfolding observed
call_tool env name payload context = do
  result ← call env name payload context
  pure (observed name result)
