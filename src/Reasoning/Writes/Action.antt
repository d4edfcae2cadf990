-- ===== src/Reasoning/Writes/Action.antt =====
-- When a write handler reports an action: what was allowed, and that a service confirmed it.
use kb_concierge.Prelude.{
  ◌≤◌, String, ◌≡◌, ◌⊎◌, Bool, true, false, Option, none, some, arith, str, Fields, has_str,
}
use kb_concierge.Intent.{Intent, same}
use kb_concierge.Policy.Engine.{PolicyDecision}
use kb_concierge.Reasoning.Calls.{
  Env, ToolContext, ToolResult, Call, Log, call, call_tool, payload_of,
}
use kb_concierge.Reasoning.Writes.{
  after_create, run_partner_service, ticketed, run_support_issue, handle_tool_call,
}

-- A tool that gives nothing: an exception, or a service that is not available.
abbrev pub failed : Option ToolResult → Bool
failed none = true
failed (some r) = r.unavailable

abbrev write_call : String → Fields → ToolContext → Call
write_call tool payload context = record { tool = tool; payload = payload; context = context }

-- Neither an order nor a ticket can be created.
abbrev pub NoWrites : Env → Type 0
NoWrites env =
    (log : Log) (payload : Fields) (context : ToolContext)
    → (failed (env.run log (write_call "partners.create_request" payload context)) ≡ true)
      × (failed (env.run log (write_call "support.create_ticket" payload context)) ≡ true)

module _ (env : Env) (d : PolicyDecision) (context : ToolContext) where
  call_tool-down :
      (name : String) (payload : Fields) (log : Log)
      → failed (env.run log (write_call name payload context)) ≡ true
      → (call_tool env name payload context log).0.1.unavailable ≡ true
  unfolding call_tool call
  call_tool-down name payload log down = ground arith

  run_partner_service-down :
      (query : String) (log : Log)
      → NoWrites env
      → (run_partner_service env d query context log).0.action_taken ≡ false
  unfolding run_partner_service after_create
  run_partner_service-down query log down = ground (
    arith,
    call_tool-down "partners.create_request" (payload_of "raw_input" (str query)) log
        (down log (payload_of "raw_input" (str query)) context).0,
  )

  run_support_issue-down :
      (query : String) (log : Log)
      → NoWrites env
      → (run_support_issue env d query context log).0.action_taken ≡ false
  unfolding run_support_issue ticketed
  run_support_issue-down query log down = ground (
    arith,
    call_tool-down "support.create_ticket" (payload_of "subject" (str query)) log
        (down log (payload_of "subject" (str query)) context).1,
  )

  pub handle_tool_call-down :
      (intent : Intent) (query : String) (confirmed : Bool) (log : Log)
      → NoWrites env
      → (handle_tool_call env d intent query context confirmed log).0.action_taken ≡ false
  unfolding handle_tool_call
  handle_tool_call-down intent query confirmed log down =
      ground (arith, run_partner_service-down query log down, run_support_issue-down query log down)

  run_partner_service-allowed :
      (query : String) (log : Log)
      → (run_partner_service env d query context log).0.action_taken ≡ true
      → has_str "partners.create_request" d.allowed_tools ≡ true
  unfolding run_partner_service
  run_partner_service-allowed query log h = ground arith

  run_support_issue-allowed :
      (query : String) (log : Log)
      → (run_support_issue env d query context log).0.action_taken ≡ true
      → has_str "support.create_ticket" d.allowed_tools ≡ true
  unfolding run_support_issue
  run_support_issue-allowed query log h = ground arith

  -- The conditions of an action.
  abbrev pub Consented : Intent → Bool → Type 0
  Consented intent confirmed =
      (d.requires_confirmation ≡ true → confirmed ≡ true)
      × (1 ≤ env.max_tool_calls)
      × (((same intent Intent.partner_service ≡ true)
            × (has_str "partners.create_request" d.allowed_tools ≡ true))
          ⊎ ((same intent Intent.support_issue ≡ true)
              × (has_str "support.create_ticket" d.allowed_tools ≡ true)))

  pub handle_tool_call-action :
      (intent : Intent) (query : String) (confirmed : Bool) (log : Log)
      → (handle_tool_call env d intent query context confirmed log).0.action_taken ≡ true
      → Consented intent confirmed
  unfolding handle_tool_call
  handle_tool_call-action intent query confirmed log h = (
    λ r. ground arith,
    ground arith,
    ground (arith, run_partner_service-allowed query log, run_support_issue-allowed query log),
  )

  -- Without the consent that a decision asks for, nothing is called and nothing is done; the turn
  -- proposes and waits.
  pub handle_tool_call-waits :
      (intent : Intent) (query : String) (log : Log)
      → d.requires_confirmation ≡ true
      → let (r, log') = handle_tool_call env d intent query context false log in
        (log' ≡ log) × (r.awaiting_confirmation ≡ true) × (r.action_taken ≡ false)
  unfolding handle_tool_call
  handle_tool_call-waits intent query log h = ground arith
