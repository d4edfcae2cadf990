-- ===== src/Reasoning/Consent.antt =====
-- A whole turn: the limit on its calls, and what an action presupposes.
use kb_concierge.Prelude.{◌≤◌, ◌≡◌, refl, true, false, arith}
use kb_concierge.Intent.{Intent, same}
use kb_concierge.Policy.Kinds.{answer, tool_call, clarify, handoff, AgentActionKind}
use kb_concierge.Reasoning.Calls.{Env, Log}
use kb_concierge.Reasoning.Answers.Limits.{
  run_status_query-quiet, answer_from_kb-limit, answer_from_kb-quiet, answer_from_kb_rag-limit,
  answer_from_kb_rag-quiet, answer_from_pricing-limit, answer_from_pricing-quiet,
}
use kb_concierge.Reasoning.Writes.Limits.{handle_tool_call-limit}
use kb_concierge.Reasoning.Writes.Action.{
  NoWrites, Consented, handle_tool_call-action, handle_tool_call-down,
}
use kb_concierge.Reasoning.Loop.{Turn, info_turn, quiet_turn, answer_turn, turn_by, run}

module _ (env : Env) (t : Turn) (log : Log) where
  answer_turn-quiet : (answer_turn env t log).0.action_taken ≡ false
  unfolding answer_turn info_turn quiet_turn
  answer_turn-quiet = ground (
    arith,
    run_status_query-quiet env t.context t.decision t.status_refs log,
    answer_from_kb-quiet env t.context t.query_masked log,
    answer_from_kb_rag-quiet env t.context t.query_masked log,
    answer_from_pricing-quiet env t.context t.query_masked log,
  )

  answer_turn-limit :
      same t.intent Intent.status_query ≡ false
      → (answer_turn env t log).0.tool_calls ≤ env.max_tool_calls
  unfolding answer_turn info_turn quiet_turn
  answer_turn-limit h = ground (
    arith,
    answer_from_kb-limit env t.context t.query_masked log,
    answer_from_kb_rag-limit env t.context t.query_masked log,
    answer_from_pricing-limit env t.context t.query_masked log,
  )

  turn_by-limit :
      (k : AgentActionKind)
      → same t.intent Intent.status_query ≡ false
      → (turn_by env k t log).0.tool_calls ≤ env.max_tool_calls
  unfolding turn_by
  turn_by-limit answer h = answer_turn-limit h
  turn_by-limit tool_call h =
      handle_tool_call-limit env t.decision t.context t.intent t.query_masked t.confirmed log
  turn_by-limit clarify h = omega arith
  turn_by-limit handoff h = omega arith

  -- A turn that is no status query reports at most `max_tool_calls` calls.
  pub run-limit :
      same t.intent Intent.status_query ≡ false → (run env t log).0.tool_calls ≤ env.max_tool_calls
  unfolding run
  run-limit h = turn_by-limit t.decision.outcome h

  turn_by-action :
      (k : AgentActionKind)
      → (turn_by env k t log).0.action_taken ≡ true
      → (k ≡ tool_call) × Consented env t.decision t.context t.intent t.confirmed
  unfolding turn_by
  turn_by-action answer h = cc (answer_turn-quiet)
  turn_by-action tool_call h = (
    refl,
    handle_tool_call-action env t.decision t.context t.intent t.query_masked t.confirmed log h,
  )
  turn_by-action clarify h = cc
  turn_by-action handoff h = cc

  -- If a turn reports an action, then the policy decided on a tool call; the user has consented,
  -- if the decision asks for that; there was room for a call; and it was an order whose creation
  -- the decision allows, or a support ticket that it allows.
  pub run-action :
      (run env t log).0.action_taken ≡ true
      → (t.decision.outcome ≡ tool_call) × Consented env t.decision t.context t.intent t.confirmed
  unfolding run
  run-action h = turn_by-action t.decision.outcome h

  turn_by-down : (k : AgentActionKind) → NoWrites env → (turn_by env k t log).0.action_taken ≡ false
  unfolding turn_by
  turn_by-down answer down = answer_turn-quiet
  turn_by-down tool_call down =
      handle_tool_call-down env t.decision t.context t.intent t.query_masked t.confirmed log down
  turn_by-down clarify down = refl
  turn_by-down handoff down = refl

  -- While no service answers, no turn reports an action.
  pub run-down : NoWrites env → (run env t log).0.action_taken ≡ false
  unfolding run
  run-down down = turn_by-down t.decision.outcome down
