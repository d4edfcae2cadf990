-- ===== src/Reasoning/Loop.antt =====
-- `ReasoningLoop.run` of reasoning/loop.py.
use kb_concierge.Prelude.{String, Bool, true, ◌&&◌, some, if◌then◌else◌, Json, has_str}
use kb_concierge.Intent.{Intent, same}
use kb_concierge.Policy.Kinds.{AgentActionKind, answer, tool_call, clarify, handoff, reason_value}
use kb_concierge.Policy.Engine.{PolicyDecision}
use kb_concierge.Reasoning.Calls.{Env, ToolContext, M, pure, LoopResult, plain_result}
use kb_concierge.Reasoning.Replies.{clarify_options, capabilities_reply, is_capabilities_query}
use kb_concierge.Reasoning.Answers.{
  run_status_query, answer_from_kb, answer_from_kb_rag, answer_from_pricing,
}
use kb_concierge.Reasoning.Writes.{handle_tool_call}

-- The arguments of a turn; `status_refs` are the stored references of the session.
pub record Turn : Type 0 where
  pub decision : PolicyDecision
  pub intent : Intent
  pub query_masked : String
  pub context : ToolContext
  pub confirmed : Bool
  pub status_refs : String → Json

module _ (env : Env) where
  -- An answer from the knowledge base: synthesised, if that is switched on and there is a tool.
  unfoldable pub info_turn : Turn → M LoopResult
  info_turn t =
      if env.rag_answer && env.registered "kb.answer"
      then answer_from_kb_rag env t.query_masked t.context
      else answer_from_kb env t.query_masked t.context

  -- The answers that need no tool.
  unfoldable pub quiet_turn : Turn → M LoopResult
  quiet_turn t =
      if same t.intent Intent.small_talk
      then if is_capabilities_query t.query_masked
        then pure (plain_result capabilities_reply)
        else pure (plain_result (env.reply "small_talk"))
      else if same t.intent Intent.out_of_scope
      then pure (plain_result (env.reply "out_of_scope"))
      else pure (plain_result (env.reply "default"))

  -- The `ANSWER` part of `run`.
  unfoldable pub answer_turn : Turn → M LoopResult
  answer_turn t =
      if same t.intent Intent.status_query
      then run_status_query env t.decision t.context t.status_refs
      else if same t.intent Intent.pricing_query && has_str "pricing.quote" t.decision.allowed_tools
      then answer_from_pricing env t.query_masked t.context
      else if same t.intent Intent.info_qa && has_str "kb.search" t.decision.allowed_tools
      then info_turn t
      else quiet_turn t

  unfoldable pub turn_by : AgentActionKind → Turn → M LoopResult
  turn_by handoff t = pure (record (plain_result (env.reply "handoff")) {
    handoff = true;
    handoff_reason = some (reason_value t.decision.reason);
  })
  turn_by clarify t =
      pure (record (plain_result (env.reply "clarify")) { options = clarify_options })
  turn_by tool_call t =
      handle_tool_call env t.decision t.intent t.query_masked t.context t.confirmed
  turn_by answer t = answer_turn t

  -- `ReasoningLoop.run`
  unfoldable pub run : Turn → M LoopResult
  unfolding turn_by
  run t = turn_by t.decision.outcome t
