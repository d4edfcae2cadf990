-- ===== src/Reasoning/Answers.antt =====
-- The read-only handlers of reasoning/loop.py: the status of an order, the knowledge base, the
-- tariff.
pub mod Traced
pub mod Limits
use kb_concierge.Prelude.{
  ℕ, zero, suc, ◌<◌, String, Bool, true, false, ◌&&◌, ◌||◌, not, Option, none, some, List, [], ◌∷◌,
  ◌++◌, length, if◌then◌else◌, ltb, Json, null, str, num, bool, Fields, end, field, truth, has_str,
  Codes, codes, fstring, join, str_eq, Dict, lookup,
}
use kb_concierge.Policy.Guardrails.{wrap_untrusted}
use kb_concierge.Policy.Engine.{PolicyDecision}
use kb_concierge.Intent.Slots.{PricingSlots}
use kb_concierge.Reasoning.Calls.{
  Env, ToolContext, ToolResult, M, pure, ◌>>=◌, call, call_tool, Observation, LoopResult,
  ChoiceOption, plain_result, one_call, one_call_degraded, payload_of, status_summary, failed_obs,
}
use kb_concierge.Reasoning.Replies.{
  get, list_or_empty, build_answer, with_info_offer, status_reply, status_no_ref_reply,
  status_unavailable_reply, pricing_clarify_reply, pricing_unavailable_reply, pricing_side_options,
}

module _ (env : Env) where
  -- The reply of one status tool.
  status_result : String → Fields → Observation → LoopResult
  status_result kind data_fields obs =
      if not obs.unavailable && truth (get "status" data_fields)
      then one_call (status_reply env data_fields kind) obs
      else one_call_degraded status_unavailable_reply obs

  -- A reference that is there, for which the tool is allowed and registered.
  unfoldable pub usable : PolicyDecision → String → Json → Bool
  usable decision tool ref = truth ref && has_str tool decision.allowed_tools && env.registered tool

  ask_status : String → String → String → Json → ToolContext → M LoopResult
  unfolding status_result
  ask_status tool key kind ref context = do
    (data_fields, obs) ← call_tool env tool (payload_of key (str (env.render ref))) context
    pure (status_result kind data_fields obs)

  -- `_run_status_query`; `refs` gives the stored references, `None` for a missing one.
  unfoldable pub run_status_query : PolicyDecision → ToolContext → (String → Json) → M LoopResult
  unfolding usable ask_status
  run_status_query decision context refs =
      if usable decision "partners.get_status" (refs "partner_request_id")
      then ask_status "partners.get_status" "request_id" "Заявка" (refs "partner_request_id")
          context
      else if usable decision "support.get_status" (refs "support_ticket_id")
      then ask_status "support.get_status" "ticket_id" "Обращение" (refs "support_ticket_id")
          context
      else pure (plain_result status_no_ref_reply)

  no_answer : LoopResult
  no_answer = record (plain_result (env.reply "no_answer")) { degraded = true }

  -- The observation of a search: `label` is the text before the number of citations.
  counted_obs : String → String → List Json → Bool → Observation
  counted_obs tool unit citations unavailable = record {
    tool = tool;
    unavailable = unavailable;
    summary =
        wrap_untrusted
          (codes (fstring (tool ∷ ": " ∷ env.render (num (length citations)) ∷ unit ∷ [])));
  }

  offered : Fields → List Json → String → Observation → LoopResult
  offered data_fields citations query obs =
      let (reply, options) = with_info_offer (build_answer env data_fields citations) query in
      record (one_call reply obs) { citations = citations; options = options }

  searched : String → Option ToolResult → LoopResult
  searched query none = one_call_degraded (env.reply "no_answer") (failed_obs "kb.search")
  searched query (some result) =
      let citations = list_or_empty (get "citations" result.data_fields) in
      let obs = counted_obs "kb.search" " результат(ов)" citations result.unavailable in
      elim citations [
        | [] ↦ one_call_degraded (env.reply "no_answer") obs
        | c ∷ cs ↦
            if result.unavailable
            then one_call_degraded (env.reply "no_answer") obs
            else offered result.data_fields (c ∷ cs) query obs
      ]

  -- `_answer_from_kb`
  unfoldable pub answer_from_kb : String → ToolContext → M LoopResult
  unfolding no_answer searched counted_obs offered
  answer_from_kb query context = if ltb env.max_tool_calls 1 then pure no_answer else do
    result ← call env "kb.search" (payload_of "query" (str query)) context
    pure (searched query result)

  synthesised : String → Option ToolResult → LoopResult
  synthesised query none = one_call_degraded (env.reply "no_answer") (failed_obs "kb.answer")
  synthesised query (some result) =
      let citations = list_or_empty (get "citations" result.data_fields) in
      let obs = counted_obs "kb.answer" " источник(ов)" citations result.unavailable in
      if result.unavailable || not (truth (get "answer" result.data_fields))
      then one_call_degraded (env.reply "no_answer") obs
      else offered result.data_fields citations query obs

  -- `_answer_from_kb_rag`
  unfoldable pub answer_from_kb_rag : String → ToolContext → M LoopResult
  unfolding no_answer synthesised counted_obs offered
  answer_from_kb_rag query context = if ltb env.max_tool_calls 1 then pure no_answer else do
    result ← call env "kb.answer" (payload_of "query" (str query)) context
    pure (synthesised query result)

  -- A line of the tariff, if its first value is there.
  line_of : Fields → String → List String → List String → List String
  line_of data_fields key line rest =
      if truth (get key data_fields) then fstring line ∷ rest else rest

  side_label : String → String
  side_label side =
      if str_eq side "tenant"
      then "арендатора"
      else if str_eq side "landlord"
      then "арендодателя"
      else "вас"

  -- `_build_pricing_reply`
  unfoldable pub build_pricing_reply : Fields → Bool → String
  unfolding line_of side_label
  build_pricing_reply data_fields assumed_year =
      let show = λ (k : String). env.render (get k data_fields) in
      join "\n" (
        fstring (
          "Тарифы reHome для "
          ∷ side_label (show "side")
          ∷ " (год договора: "
          ∷ show "contract_year"
          ∷ "):"
          ∷ [])
        ∷ line_of data_fields "commission_amount_rub"
            ("• Комиссия: "
              ∷ show "commission_amount_rub"
              ∷ " ₽ (ставка "
              ∷ show "commission_rate"
              ∷ ")."
              ∷ [])
            (line_of data_fields "service_fee_amount_rub"
              ("• Сервисный сбор: "
                ∷ show "service_fee_amount_rub"
                ∷ " ₽ (ставка "
                ∷ show "service_fee_rate"
                ∷ ")."
                ∷ [])
              (line_of data_fields "lost_income_compensation_rub"
                ("• Компенсация потери дохода: " ∷ show "lost_income_compensation_rub" ∷ " ₽." ∷ [])
                (line_of data_fields "insurance_coverage_rub"
                  ("• Страховое покрытие: " ∷ show "insurance_coverage_rub" ∷ " ₽." ∷ [])
                  (◌++◌
                    (if assumed_year
                      then "Расчёт для 1-го года договора — уточните год, если нужен другой." ∷ []
                      else [])
                    (line_of data_fields "tariff_version"
                      ("Источник: тариф " ∷ show "tariff_version" ∷ "." ∷ []) []))))))

  is_none : Option ℕ → Bool
  is_none none = true
  is_none (some _) = false

  year_or_first : Option ℕ → ℕ
  year_or_first none = 1
  year_or_first (some y) = y

  quoted : Bool → Option ToolResult → LoopResult
  quoted assumed_year none =
      one_call_degraded pricing_unavailable_reply (failed_obs "pricing.quote")
  quoted assumed_year (some result) =
      let obs : Observation = record {
        tool = "pricing.quote";
        unavailable = result.unavailable;
        summary = status_summary "pricing.quote" result.unavailable;
      } in
      if result.unavailable || not (truth (get "tariff_version" result.data_fields))
      then one_call_degraded pricing_unavailable_reply obs
      else record (one_call (build_pricing_reply result.data_fields assumed_year) obs) {
        citations = list_or_empty (get "sources" result.data_fields);
      }

  pricing_payload : String → ℕ → String → Fields
  pricing_payload rent year side =
      field "rent_amount_rub" (str rent)
        (field "contract_year" (num year) (field "side" (str side) end))

  priced : Option String → Option ℕ → Option String → ToolContext → M LoopResult
  priced (some rent) year (some side) context =
      if ltb env.max_tool_calls 1
      then pure (record (plain_result pricing_unavailable_reply) { degraded = true })
      else do
        result ← call env "pricing.quote" (pricing_payload rent (year_or_first year) side) context
        pure (quoted (is_none year) result)
  priced _ year _ context =
      pure (record (plain_result pricing_clarify_reply) { options = pricing_side_options })

  -- `_answer_from_pricing`
  unfoldable pub answer_from_pricing : String → ToolContext → M LoopResult
  unfolding priced pricing_payload year_or_first is_none quoted
  answer_from_pricing query context =
      let slots = env.pricing_slots query in
      priced slots.rent_amount_rub slots.contract_year slots.side context
