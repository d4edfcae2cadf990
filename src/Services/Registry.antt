-- ===== src/Services/Registry.antt =====
-- backend/src/api/reasoning/dependencies.py and tools/registry.py: which tools the loop is built
-- with, and the loop's environment over the neighbouring services.
pub mod Down
use kb_concierge.Prelude.{
  ℕ, String, Bool, true, false, Option, none, some, List, [], ◌∷◌, ◌++◌, if◌then◌else◌, Dict,
  lookup, Json, Fields,
}
use kb_concierge.Intent.Slots.{extract_pricing_slots}
use kb_concierge.Reasoning.Calls.{Env, Log, Call, ToolContext, ToolResult}
use kb_concierge.Services.{Token, Send}
use kb_concierge.Services.Partners
use kb_concierge.Services.Support
use kb_concierge.Services.Knowledge
use kb_concierge.Services.Platform
use kb_concierge.Services.Tariffs

-- Which addresses are set, and the switch of the answers.
pub record Configured : Type 0 where
  pub kb_search : Bool
  pub kb_rag_answer : Bool
  pub kb_tariffs : Bool
  pub platform : Bool
  pub kb_support : Bool
  pub kb_partners : Bool

-- What stands outside: how Python prints and reads values, the tokens of each service, the cache,
-- and the services. What the last two give may depend on the calls so far.
pub record Neighbours : Type 0 where
  pub render : Json → String
  pub show : ℕ → String
  pub to_int : Json → Option ℕ
  pub as_int : Json → Option ℕ
  pub as_decimal : Json → Option String
  pub token : String → Option String → Token
  pub cached : Log → String → Option Json
  pub send : String → Log → Send

-- A tool, by the calls so far.
abbrev pub Tool : Type 0
Tool = Log → Fields → ToolContext → Option ToolResult

if_set : Bool → Dict Tool → Dict Tool
if_set true tools = tools
if_set false tools = []

module _ (n : Neighbours) where
  abbrev pub search_tool : Tool
  search_tool log =
      Knowledge.run_search n.render n.as_int (n.token "kb_search") (n.cached log)
        (n.send "kb_search" log)

  abbrev pub answer_tool : Tool
  answer_tool log =
      Knowledge.run_answer n.render n.as_int (n.token "kb_search") (n.cached log)
        (n.send "kb_chat" log)

  abbrev pub quote_tool : Tool
  quote_tool log payload context =
      Tariffs.run_quote n.render n.to_int n.as_int n.as_decimal (n.token "kb_tariffs")
        (n.cached log) (n.send "kb_tariffs" log) payload

  abbrev pub context_tool : Tool
  context_tool log =
      Platform.run_get_context n.render (n.token "platform") (n.cached log) (n.send "platform" log)

  -- `_register_support_tools`
  abbrev pub support_tools : Dict Tool
  support_tools =
      (
        "support.create_ticket",
        λ log. Support.run_create_ticket n.render (n.token "kb_support") (n.send "kb_support" log),
      )
      ∷ (
        "support.add_message",
        λ log. Support.run_add_message n.render (n.token "kb_support") (n.send "kb_support" log),
      )
      ∷ (
        "support.get_status",
        λ log. Support.run_ticket_status n.render (n.token "kb_support") (n.send "kb_support" log),
      )
      ∷ []

  -- `_register_partners_tools`
  abbrev pub partners_tools : Dict Tool
  partners_tools =
      (
        "partners.create_request",
        λ log.
            Partners.run_create_request n.render (n.token "kb_partners") (n.send "kb_partners" log),
      )
      ∷ (
        "partners.classify",
        λ log. Partners.run_classify n.render (n.token "kb_partners") (n.send "kb_partners" log),
      )
      ∷ (
        "partners.dispatch",
        λ log. Partners.run_dispatch n.render (n.token "kb_partners") (n.send "kb_partners" log),
      )
      ∷ (
        "partners.get_status",
        λ log. Partners.run_get_status n.render (n.token "kb_partners") (n.send "kb_partners" log),
      )
      ∷ []

  -- The registry that `get_reasoning_loop` fills.
  unfoldable pub registry : Configured → Dict Tool
  unfolding if_set
  registry c =
      if_set c.kb_search
        (("kb.search", search_tool) ∷ if_set c.kb_rag_answer (("kb.answer", answer_tool) ∷ []))
      ++ (if_set c.kb_tariffs (("pricing.quote", quote_tool) ∷ [])
          ++ (if_set c.platform (("platform.get_context", context_tool) ∷ [])
              ++ (if_set c.kb_support support_tools ++ if_set c.kb_partners partners_tools)))

  is_there : Option Tool → Bool
  is_there none = false
  is_there (some t) = true

  run_tool : Option Tool → Log → Call → Option ToolResult
  run_tool none log c = none
  run_tool (some t) log c = t log c.payload c.context

  -- `get_reasoning_loop`
  unfoldable pub deployed : Configured → (String → String) → ℕ → Env
  unfolding is_there run_tool
  deployed c reply max_tool_calls = record {
    registered = λ name. is_there (lookup name (registry c));
    run = λ log call. run_tool (lookup call.tool (registry c)) log call;
    render = n.render;
    reply = reply;
    pricing_slots = extract_pricing_slots n.show;
    max_tool_calls = max_tool_calls;
    rag_answer = c.kb_rag_answer;
  }
