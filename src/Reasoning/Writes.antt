-- ===== src/Reasoning/Writes.antt =====
-- The write handlers of reasoning/loop.py: an order for a partner, a support ticket.
pub mod Traced
pub mod Limits
pub mod Action
use kb_concierge.Prelude.{
  ℕ, ◌+◌, String, Bool, true, false, ◌&&◌, ◌||◌, not, Option, none, some, List, [], ◌∷◌, ◌++◌,
  if◌then◌else◌, ltb, leb, length, Json, null, str, Fields, end, field, truth, has_str,
}
use kb_concierge.Intent.{Intent, same}
use kb_concierge.Policy.Engine.{PolicyDecision}
use kb_concierge.Reasoning.Calls.{
  Env, ToolContext, M, pure, ◌>>=◌, call_tool, Observation, LoopResult, plain_result, one_call,
  one_call_degraded, payload_of,
}
use kb_concierge.Reasoning.Replies.{get, partner_reply, support_reply}

-- `data and not unavailable`: the newer data of a step, or those of the step before.
newer : Fields → Observation → Fields → Fields
newer end obs old = old
newer (field k v fs) obs old = if obs.unavailable then old else field k v fs

-- The data and the observations of the steps so far.
abbrev Steps : Type 0
Steps = Fields × List Observation

module _ (env : Env) where
  -- One more step of an order.
  further : Bool → String → String → ToolContext → Steps → M Steps
  unfolding newer
  further false tool request_id context (data_fields, observations) =
      pure (data_fields, observations)
  further true tool request_id context (data_fields, observations) = do
    (new_data, obs) ← call_tool env tool (payload_of "request_id" (str request_id)) context
    pure (newer new_data obs data_fields, observations ++ obs ∷ [])

  may_classify : PolicyDecision → Bool
  may_classify decision =
      has_str "partners.classify" decision.allowed_tools && leb 2 env.max_tool_calls

  may_dispatch : PolicyDecision → Steps → Bool
  may_dispatch decision (_, observations) =
      has_str "partners.dispatch" decision.allowed_tools
      && env.registered "partners.dispatch"
      && leb (length observations + 1) env.max_tool_calls

  ordered : String → Steps → LoopResult
  ordered request_id (data_fields, observations) =
      record (plain_result (partner_reply env data_fields)) {
        observations = observations;
        tool_calls = length observations;
        steps = length observations + 1;
        action_taken = true;
        created_refs =
            ("partner_request_id", str request_id)
            ∷ ("partner_number", get "number" data_fields)
            ∷ [];
      }

  -- What follows once the order is created.
  pub after_create : PolicyDecision → ToolContext → Fields → Observation → M LoopResult
  unfolding further may_classify may_dispatch ordered
  after_create decision context data_fields obs =
      if obs.unavailable || not (truth (get "request_id" data_fields))
      then pure (one_call_degraded (env.reply "write_unavailable") obs)
      else do
        let request_id = env.render (get "request_id" data_fields)
        classified ←
            further (may_classify decision) "partners.classify" request_id context
              (data_fields, obs ∷ [])
        dispatched ←
            further (may_dispatch decision classified) "partners.dispatch" request_id context
              classified
        pure (ordered request_id dispatched)

  -- `_run_partner_service`
  unfoldable pub run_partner_service : PolicyDecision → String → ToolContext → M LoopResult
  unfolding after_create
  run_partner_service decision query context =
      if not (has_str "partners.create_request" decision.allowed_tools)
      then pure (plain_result (env.reply "pending"))
      else do
        (data_fields, obs) ←
            call_tool env "partners.create_request" (payload_of "raw_input" (str query)) context
        after_create decision context data_fields obs

  ticketed : Fields → Observation → LoopResult
  ticketed data_fields obs =
      if obs.unavailable || not (truth (get "ticket_id" data_fields))
      then one_call_degraded (env.reply "write_unavailable") obs
      else record (one_call (support_reply env data_fields) obs) {
        action_taken = true;
        created_refs =
            ("support_ticket_id", get "ticket_id" data_fields)
            ∷ ("support_number", get "number" data_fields)
            ∷ [];
      }

  -- `_run_support_issue`
  unfoldable pub run_support_issue : PolicyDecision → String → ToolContext → M LoopResult
  unfolding ticketed
  run_support_issue decision query context =
      if not (has_str "support.create_ticket" decision.allowed_tools)
      then pure (plain_result (env.reply "pending"))
      else do
        (data_fields, obs) ←
            call_tool env "support.create_ticket" (payload_of "subject" (str query)) context
        pure (ticketed data_fields obs)

  -- `_handle_tool_call`
  unfoldable pub handle_tool_call :
      PolicyDecision → Intent → String → ToolContext → Bool → M LoopResult
  handle_tool_call decision intent query context confirmed =
      if decision.requires_confirmation && not confirmed
      then pure
          (record (plain_result (
            env.reply (
              if same intent Intent.partner_service
              then "propose_partner"
              else "propose_default"))) { awaiting_confirmation = true })
      else if ltb env.max_tool_calls 1
      then pure (record (plain_result (env.reply "write_unavailable")) { degraded = true })
      else if same intent Intent.partner_service
      then run_partner_service decision query context
      else if same intent Intent.support_issue
      then run_support_issue decision query context
      else pure (plain_result (env.reply "pending"))
