-- ===== src/Reasoning/Bounded.antt =====
-- A whole turn: what it calls, and how often.
use kb_concierge.Prelude.{◌≡◌, inl, inr, Bool, true, ◌&&◌, arith, has_str, Bool-cases}
use kb_concierge.Intent.{Intent, same}
use kb_concierge.Policy.Kinds.{answer, tool_call, clarify, handoff, AgentActionKind}
use kb_concierge.Reasoning.Calls.{Env, Log}
use kb_concierge.Reasoning.Replies.{is_capabilities_query}
use kb_concierge.Reasoning.Traced.{Permitted, IsTraced, Grows, Grows-same}
use kb_concierge.Reasoning.Answers.Traced.{
  run_status_query-IsTraced, answer_from_kb-IsTraced, answer_from_kb_rag-IsTraced,
  answer_from_pricing-IsTraced,
}
use kb_concierge.Reasoning.Writes.Traced.{handle_tool_call-IsTraced}
use kb_concierge.Reasoning.Loop.{Turn, info_turn, quiet_turn, answer_turn, turn_by, run}

second : (a b : Bool) → a && b ≡ true → b ≡ true
second a b h = ground arith

module _ (env : Env) (t : Turn) where
  info_turn-IsTraced :
      same t.intent Intent.info_qa && has_str "kb.search" t.decision.allowed_tools ≡ true
      → IsTraced (Permitted t.decision t.context) (info_turn env t)
  unfolding info_turn
  info_turn-IsTraced h log = elim (Bool-cases (env.rag_answer && env.registered "kb.answer")) [
    | inl r ↦
        rw r
          (answer_from_kb_rag-IsTraced env t.decision t.context t.query_masked (second _ _ h) log)
    | inr r ↦
        rw r (answer_from_kb-IsTraced env t.decision t.context t.query_masked (second _ _ h) log)
  ]

  quiet_turn-IsTraced : IsTraced (Permitted t.decision t.context) (quiet_turn env t)
  unfolding quiet_turn
  quiet_turn-IsTraced log = elim (Bool-cases (same t.intent Intent.small_talk)) [
    | inl a ↦ rw a (elim (Bool-cases (is_capabilities_query t.query_masked)) [
      | inl b ↦ rw b (Grows-same 0 log)
      | inr b ↦ rw b (Grows-same 0 log)
    ])
    | inr a ↦ rw a (elim (Bool-cases (same t.intent Intent.out_of_scope)) [
      | inl b ↦ rw b (Grows-same 0 log)
      | inr b ↦ rw b (Grows-same 0 log)
    ])
  ]

  answer_turn-IsTraced : IsTraced (Permitted t.decision t.context) (answer_turn env t)
  unfolding answer_turn
  answer_turn-IsTraced log = elim (Bool-cases (same t.intent Intent.status_query)) [
    | inl a ↦ rw a (run_status_query-IsTraced env t.decision t.context t.status_refs log)
    | inr a ↦
        let pricing =
          same t.intent Intent.pricing_query && has_str "pricing.quote" t.decision.allowed_tools in
        let info = same t.intent Intent.info_qa && has_str "kb.search" t.decision.allowed_tools in
        rw a (elim (Bool-cases pricing) [
          | inl b ↦ rw b (
              answer_from_pricing-IsTraced env t.decision t.context t.query_masked (second _ _ b)
                log)
          | inr b ↦ rw b (elim (Bool-cases info) [
            | inl c ↦ rw c (info_turn-IsTraced c log)
            | inr c ↦ rw c (quiet_turn-IsTraced log)
          ])
        ])
  ]

  turn_by-IsTraced :
      (k : AgentActionKind) → IsTraced (Permitted t.decision t.context) (turn_by env k t)
  unfolding turn_by
  turn_by-IsTraced answer log = answer_turn-IsTraced log
  turn_by-IsTraced tool_call log =
      handle_tool_call-IsTraced env t.decision t.context t.intent t.query_masked t.confirmed log
  turn_by-IsTraced clarify log = Grows-same 0 log
  turn_by-IsTraced handoff log = Grows-same 0 log

  -- A turn only adds calls to the log. Each new call is to a tool that the decision allows (or to
  -- `kb.answer` where `kb.search` is allowed), is made in the context of the turn, and there are
  -- no more of them than the result reports.
  pub run-Permitted :
      (log : Log)
      → let (r, log') = run env t log in
        Grows (Permitted t.decision t.context) r.tool_calls log log'
  unfolding run
  run-Permitted log = turn_by-IsTraced t.decision.outcome log
