-- ===== src/Reasoning/Answers/Limits.antt =====
-- How many calls the read-only handlers report, and that they report no action.
use kb_concierge.Prelude.{
  ◌+◌, length, length-append, str, [], ◌∷◌, true, false, ◌≤◌, String, ◌≡◌, Json, arith,
}
use kb_concierge.Policy.Engine.{PolicyDecision}
use kb_concierge.Reasoning.Calls.{Env, ToolContext, Log, Call, call, call_tool, payload_of}
use kb_concierge.Reasoning.Answers.{
  run_status_query, usable, ask_status, status_result, searched, answer_from_kb, synthesised,
  answer_from_kb_rag, quoted, priced, answer_from_pricing, offered, no_answer,
}

abbrev asked : Env → ToolContext → (String → Json) → Call
asked env context refs = record {
  tool = "partners.get_status";
  payload = payload_of "request_id" (str (env.render (refs "partner_request_id")));
  context = context;
}

module _ (env : Env) (context : ToolContext) where
  pub run_status_query-limit :
      (d : PolicyDecision) (refs : String → Json) (log : Log)
      → (run_status_query env d context refs log).0.tool_calls ≤ 1
  unfolding run_status_query ask_status status_result
  run_status_query-limit d refs log = ground arith

  pub answer_from_kb-limit :
      (query : String) (log : Log)
      → (answer_from_kb env query context log).0.tool_calls ≤ env.max_tool_calls
  unfolding answer_from_kb no_answer searched offered
  answer_from_kb-limit query log = ground arith

  pub answer_from_kb_rag-limit :
      (query : String) (log : Log)
      → (answer_from_kb_rag env query context log).0.tool_calls ≤ env.max_tool_calls
  unfolding answer_from_kb_rag no_answer synthesised offered
  answer_from_kb_rag-limit query log = ground arith

  pub answer_from_pricing-limit :
      (query : String) (log : Log)
      → (answer_from_pricing env query context log).0.tool_calls ≤ env.max_tool_calls
  unfolding answer_from_pricing priced quoted
  answer_from_pricing-limit query log = ground arith

  pub run_status_query-quiet :
      (d : PolicyDecision) (refs : String → Json) (log : Log)
      → (run_status_query env d context refs log).0.action_taken ≡ false
  unfolding run_status_query ask_status status_result
  run_status_query-quiet d refs log = ground arith

  pub answer_from_kb-quiet :
      (query : String) (log : Log) → (answer_from_kb env query context log).0.action_taken ≡ false
  unfolding answer_from_kb no_answer searched offered
  answer_from_kb-quiet query log = ground arith

  pub answer_from_kb_rag-quiet :
      (query : String) (log : Log)
      → (answer_from_kb_rag env query context log).0.action_taken ≡ false
  unfolding answer_from_kb_rag no_answer synthesised offered
  answer_from_kb_rag-quiet query log = ground arith

  pub answer_from_pricing-quiet :
      (query : String) (log : Log)
      → (answer_from_pricing env query context log).0.action_taken ≡ false
  unfolding answer_from_pricing priced quoted
  answer_from_pricing-quiet query log = ground arith

  -- A usable reference is asked for, whatever the limit of the loop is: a limit of 0 too.
  pub run_status_query-unlimited :
      (d : PolicyDecision) (refs : String → Json) (log : Log)
      → usable env d "partners.get_status" (refs "partner_request_id") ≡ true
      → let (r, log') = run_status_query env d context refs log in
        (r.tool_calls ≡ 1) × (length log' ≡ length log + 1)
  unfolding run_status_query ask_status status_result call_tool call usable
  run_status_query-unlimited d refs log h =
      (ground arith, ground (arith, length-append log (asked env context refs ∷ [])))
