-- ===== src/Reasoning/Answers/Traced.antt =====
-- The read-only handlers call only what the decision permits, once at most.
use kb_concierge.Prelude.{
  ℕ, String, ◌≡◌, inl, inr, Bool, true, Option, none, some, arith, str, Json, Fields, has_str, ltb,
  subst, sym, Bool-cases,
}
use kb_concierge.Policy.Engine.{PolicyDecision}
use kb_concierge.Reasoning.Calls.{Env, ToolContext, ToolResult, Call, Observation, payload_of}
use kb_concierge.Reasoning.Traced.{
  Names, Permitted, IsTraced, Grows-same, after_call-IsTraced, after_call_tool-IsTraced,
}
use kb_concierge.Reasoning.Answers.{
  usable, ask_status, status_result, run_status_query, searched, answer_from_kb, synthesised,
  answer_from_kb_rag, quoted, priced, answer_from_pricing, is_none, year_or_first, pricing_payload,
  offered,
}

module _ (env : Env) (d : PolicyDecision) (context : ToolContext) where
  named-Permitted :
      (name : String) (c : Call)
      → has_str name d.allowed_tools ≡ true
      → Names name context c
      → Permitted d context c
  named-Permitted name c h (e, k) =
      (inl (subst (λ s. has_str s d.allowed_tools ≡ true) (sym e) h), k)

  status_result_one :
      (kind : String) (r : Fields × Observation) → (status_result env kind r.0 r.1).tool_calls ≡ 1
  unfolding status_result
  status_result_one kind r = ground arith

  ask_status-IsTraced :
      (tool key kind : String) (ref : Json)
      → has_str tool d.allowed_tools ≡ true
      → IsTraced (Permitted d context) (ask_status env tool key kind ref context)
  unfolding ask_status
  ask_status-IsTraced tool key kind ref h =
      after_call_tool-IsTraced env tool (payload_of key (str (env.render ref))) context
        (λ r. status_result env kind r.0 r.1) (λ c n. named-Permitted tool c h n)
        (status_result_one kind)

  usable-allowed :
      (tool : String) (ref : Json)
      → usable env d tool ref ≡ true
      → has_str tool d.allowed_tools ≡ true
  unfolding usable
  usable-allowed tool ref h = ground arith

  pub run_status_query-IsTraced :
      (refs : String → Json) → IsTraced (Permitted d context) (run_status_query env d context refs)
  unfolding run_status_query
  run_status_query-IsTraced refs log =
      elim (Bool-cases (usable env d "partners.get_status" (refs "partner_request_id"))) [
        | inl h ↦ rw h (
            ask_status-IsTraced "partners.get_status" "request_id" "Заявка"
              (refs "partner_request_id")
              (usable-allowed "partners.get_status" (refs "partner_request_id") h) log)
        | inr h ↦
            rw h (elim (Bool-cases (usable env d "support.get_status" (refs "support_ticket_id"))) [
              | inl k ↦ rw k (
                  ask_status-IsTraced "support.get_status" "ticket_id" "Обращение"
                    (refs "support_ticket_id")
                    (usable-allowed "support.get_status" (refs "support_ticket_id") k) log)
              | inr k ↦ rw k (Grows-same 0 log)
            ])
      ]

  searched_one : (query : String) (r : Option ToolResult) → (searched env query r).tool_calls ≡ 1
  unfolding searched offered
  searched_one query r = ground arith

  pub answer_from_kb-IsTraced :
      (query : String)
      → has_str "kb.search" d.allowed_tools ≡ true
      → IsTraced (Permitted d context) (answer_from_kb env query context)
  unfolding answer_from_kb
  answer_from_kb-IsTraced query h log = elim (Bool-cases (ltb env.max_tool_calls 1)) [
    | inl e ↦ rw e (Grows-same 0 log)
    | inr e ↦ rw e (
        after_call-IsTraced env "kb.search" (payload_of "query" (str query)) context
          (searched env query) (λ c n. named-Permitted "kb.search" c h n) (searched_one query) log)
  ]

  synthesised_one :
      (query : String) (r : Option ToolResult) → (synthesised env query r).tool_calls ≡ 1
  unfolding synthesised offered
  synthesised_one query r = ground arith

  pub answer_from_kb_rag-IsTraced :
      (query : String)
      → has_str "kb.search" d.allowed_tools ≡ true
      → IsTraced (Permitted d context) (answer_from_kb_rag env query context)
  unfolding answer_from_kb_rag
  answer_from_kb_rag-IsTraced query h log = elim (Bool-cases (ltb env.max_tool_calls 1)) [
    | inl e ↦ rw e (Grows-same 0 log)
    | inr e ↦ rw e (
        after_call-IsTraced env "kb.answer" (payload_of "query" (str query)) context
          (synthesised env query) (λ c n. (inr (n.0, h), n.1)) (synthesised_one query) log)
  ]

  quoted_one : (assumed : Bool) (r : Option ToolResult) → (quoted env assumed r).tool_calls ≡ 1
  unfolding quoted
  quoted_one assumed r = ground arith

  priced-IsTraced :
      (rent : Option String) (year : Option ℕ) (side : Option String)
      → has_str "pricing.quote" d.allowed_tools ≡ true
      → IsTraced (Permitted d context) (priced env rent year side context)
  unfolding priced
  priced-IsTraced (some rent) year (some side) h log =
      elim (Bool-cases (ltb env.max_tool_calls 1)) [
        | inl e ↦ rw e (Grows-same 0 log)
        | inr e ↦ rw e (
            after_call-IsTraced env "pricing.quote"
              (pricing_payload env rent (year_or_first env year) side) context
              (quoted env (is_none env year)) (λ c n. named-Permitted "pricing.quote" c h n)
              (quoted_one (is_none env year)) log)
      ]
  priced-IsTraced (some rent) year none h log = Grows-same 0 log
  priced-IsTraced none year side h log = Grows-same 0 log

  pub answer_from_pricing-IsTraced :
      (query : String)
      → has_str "pricing.quote" d.allowed_tools ≡ true
      → IsTraced (Permitted d context) (answer_from_pricing env query context)
  unfolding answer_from_pricing
  answer_from_pricing-IsTraced query h =
      let slots = env.pricing_slots query in
      priced-IsTraced slots.rent_amount_rub slots.contract_year slots.side h
