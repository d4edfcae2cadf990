-- ===== src/Reasoning/Writes/Limits.antt =====
-- How many calls the write handlers report, and when they report an action.
use kb_concierge.Prelude.{
  ℕ, ◌+◌, ◌≤◌, String, ◌≡◌, refl, inl, inr, Bool, true, false, ◌||◌, not, [], ◌∷◌, arith, str,
  Fields, has_str, truth, Bool-cases, length, length-append,
}
use kb_concierge.Intent.{Intent}
use kb_concierge.Policy.Engine.{PolicyDecision}
use kb_concierge.Reasoning.Calls.{Env, ToolContext, Log, call_tool, Observation, payload_of}
use kb_concierge.Reasoning.Replies.{get}
use kb_concierge.Reasoning.Writes.{
  Steps, further, may_classify, may_dispatch, after_create, run_partner_service, ticketed,
  run_support_issue, handle_tool_call,
}

module _ (env : Env) (d : PolicyDecision) (context : ToolContext) where
  further-length :
      (b : Bool) (tool request_id : String) (s : Steps) (log : Log) (n : ℕ)
      → length s.1 ≤ n
      → (b ≡ true → length s.1 + 1 ≤ n)
      → length (further env b tool request_id context s log).0.1 ≤ n
  unfolding further
  further-length false tool request_id s log n h room = h
  further-length true tool request_id s log n h room = omega (
    arith,
    room refl,
    length-append s.1
        ((call_tool env tool (payload_of "request_id" (str request_id)) context log).0.1 ∷ []),
  )

  classify_room : may_classify env d ≡ true → 2 ≤ env.max_tool_calls
  unfolding may_classify
  classify_room h = ground arith

  dispatch_room : (s : Steps) → may_dispatch env d s ≡ true → length s.1 + 1 ≤ env.max_tool_calls
  unfolding may_dispatch
  dispatch_room s h = ground arith

  after_create-limit :
      (data_fields : Fields) (obs : Observation) (log : Log)
      → 1 ≤ env.max_tool_calls
      → (after_create env d context data_fields obs log).0.tool_calls ≤ env.max_tool_calls
  unfolding after_create
  after_create-limit data_fields obs log one =
      elim (Bool-cases (obs.unavailable || not (truth (get "request_id" data_fields)))) [
        | inl h ↦ rw h one
        | inr h ↦ rw h (
            let request_id = env.render (get "request_id" data_fields) in
            let (s, mid) =
              further env (may_classify env d) "partners.classify" request_id context
                (data_fields, obs ∷ []) log in
            further-length (may_dispatch env d s) "partners.dispatch" request_id s mid
              env.max_tool_calls
              (further-length (may_classify env d) "partners.classify" request_id
                (data_fields, obs ∷ []) log env.max_tool_calls one classify_room)
              (dispatch_room s))
      ]

  run_partner_service-limit :
      (query : String) (log : Log)
      → 1 ≤ env.max_tool_calls
      → (run_partner_service env d query context log).0.tool_calls ≤ env.max_tool_calls
  unfolding run_partner_service
  run_partner_service-limit query log one =
      elim (Bool-cases (has_str "partners.create_request" d.allowed_tools)) [
        | inl h ↦ rw h (
            let ((data_fields, obs), mid) =
              call_tool env "partners.create_request" (payload_of "raw_input" (str query)) context
                log in
            after_create-limit data_fields obs mid one)
        | inr h ↦ rw h (omega arith)
      ]

  run_support_issue-limit :
      (query : String) (log : Log)
      → 1 ≤ env.max_tool_calls
      → (run_support_issue env d query context log).0.tool_calls ≤ env.max_tool_calls
  unfolding run_support_issue ticketed
  run_support_issue-limit query log one = ground arith

  pub handle_tool_call-limit :
      (intent : Intent) (query : String) (confirmed : Bool) (log : Log)
      → (handle_tool_call env d intent query context confirmed log).0.tool_calls
        ≤ env.max_tool_calls
  unfolding handle_tool_call
  handle_tool_call-limit intent query confirmed log =
      ground (arith, run_partner_service-limit query log, run_support_issue-limit query log)
