-- ===== src/Reasoning/Writes/Traced.antt =====
-- The write handlers call only what the decision permits, within the limit of the loop, and report
-- every call.
use kb_concierge.Prelude.{
  String, ◌≡◌, refl, inl, inr, Bool, true, false, ◌&&◌, [], ◌∷◌, arith, str, Fields, has_str, ltb,
  truth, subst, sym, Bool-cases, length, length-append, not, ◌||◌,
}
use kb_concierge.Intent.{Intent, same}
use kb_concierge.Policy.Engine.{PolicyDecision}
use kb_concierge.Reasoning.Calls.{Env, ToolContext, Call, Log, call_tool, Observation, payload_of}
use kb_concierge.Reasoning.Replies.{get}
use kb_concierge.Reasoning.Traced.{
  Names, Permitted, IsTraced, Grows, Grows-same, Grows-trans, call_tool-Grows,
  after_call_tool-IsTraced,
}
use kb_concierge.Reasoning.Writes.{
  Steps, further, may_classify, may_dispatch, after_create, run_partner_service, ticketed,
  run_support_issue, handle_tool_call,
}

module _ (env : Env) (d : PolicyDecision) (context : ToolContext) where
  named-Permitted :
      (name : String) (c : Call)
      → has_str name d.allowed_tools ≡ true
      → Names name context c
      → Permitted d context c
  named-Permitted name c h (e, k) =
      (inl (subst (λ s. has_str s d.allowed_tools ≡ true) (sym e) h), k)

  -- A further step makes as many calls as it adds observations.
  further-Grows :
      (b : Bool) (tool request_id : String) (s : Steps) (base log : Log)
      → (b ≡ true → has_str tool d.allowed_tools ≡ true)
      → Grows (Permitted d context) (length s.1) base log
      → let (s', log') = further env b tool request_id context s log in
        Grows (Permitted d context) (length s'.1) base log'
  unfolding further
  further-Grows false tool request_id s base log allowed g = g
  further-Grows true tool request_id s base log allowed g =
      let payload = payload_of "request_id" (str request_id) in
      let (made, log') = call_tool env tool payload context log in
      rw (length-append s.1 (made.1 ∷ [])) (
        Grows-trans (length s.1) 1 base log log' g (
          call_tool-Grows env tool payload context log
            (λ c n. named-Permitted tool c (allowed refl) n)))

  classify-allowed : may_classify env d ≡ true → has_str "partners.classify" d.allowed_tools ≡ true
  unfolding may_classify
  classify-allowed h = ground arith

  dispatch-allowed :
      (s : Steps) → may_dispatch env d s ≡ true → has_str "partners.dispatch" d.allowed_tools ≡ true
  unfolding may_dispatch
  dispatch-allowed s h = ground arith

  after_create-Grows :
      (data_fields : Fields) (obs : Observation) (base log : Log)
      → Grows (Permitted d context) 1 base log
      → let (r, log') = after_create env d context data_fields obs log in
        Grows (Permitted d context) r.tool_calls base log'
  unfolding after_create
  after_create-Grows data_fields obs base log g =
      elim (Bool-cases (obs.unavailable || not (truth (get "request_id" data_fields)))) [
        | inl h ↦ rw h g
        | inr h ↦ rw h (
            let request_id = env.render (get "request_id" data_fields) in
            let (s, mid) =
              further env (may_classify env d) "partners.classify" request_id context
                (data_fields, obs ∷ []) log in
            further-Grows (may_dispatch env d s) "partners.dispatch" request_id s base mid
              (dispatch-allowed s)
              (further-Grows (may_classify env d) "partners.classify" request_id
                (data_fields, obs ∷ []) base log classify-allowed g))
      ]

  ticketed_one : (r : Fields × Observation) → (ticketed env r.0 r.1).tool_calls ≡ 1
  unfolding ticketed
  ticketed_one r = ground arith

  run_support_issue-IsTraced :
      (query : String) → IsTraced (Permitted d context) (run_support_issue env d query context)
  unfolding run_support_issue
  run_support_issue-IsTraced query log =
      elim (Bool-cases (has_str "support.create_ticket" d.allowed_tools)) [
        | inl h ↦ rw h (
            after_call_tool-IsTraced env "support.create_ticket" (payload_of "subject" (str query))
              context (λ r. ticketed env r.0 r.1)
              (λ c n. named-Permitted "support.create_ticket" c h n) ticketed_one log)
        | inr h ↦ rw h (Grows-same 0 log)
      ]

  run_partner_service-IsTraced :
      (query : String) → IsTraced (Permitted d context) (run_partner_service env d query context)
  unfolding run_partner_service
  run_partner_service-IsTraced query log =
      elim (Bool-cases (has_str "partners.create_request" d.allowed_tools)) [
        | inl h ↦ rw h (
            let payload = payload_of "raw_input" (str query) in
            let ((data_fields, obs), mid) =
              call_tool env "partners.create_request" payload context log in
            after_create-Grows data_fields obs log mid (
              call_tool-Grows env "partners.create_request" payload context log
                (λ c n. named-Permitted "partners.create_request" c h n)))
        | inr h ↦ rw h (Grows-same 0 log)
      ]

  pub handle_tool_call-IsTraced :
      (intent : Intent) (query : String) (confirmed : Bool)
      → IsTraced (Permitted d context) (handle_tool_call env d intent query context confirmed)
  unfolding handle_tool_call
  handle_tool_call-IsTraced intent query confirmed log =
      elim (Bool-cases (d.requires_confirmation && not confirmed)) [
        | inl a ↦ rw a (Grows-same 0 log)
        | inr a ↦ rw a (elim (Bool-cases (ltb env.max_tool_calls 1)) [
          | inl b ↦ rw b (Grows-same 0 log)
          | inr b ↦ rw b (elim (Bool-cases (same intent Intent.partner_service)) [
            | inl p ↦ rw p (run_partner_service-IsTraced query log)
            | inr p ↦ rw p (elim (Bool-cases (same intent Intent.support_issue)) [
              | inl q ↦ rw q (run_support_issue-IsTraced query log)
              | inr q ↦ rw q (Grows-same 0 log)
            ])
          ])
        ])
      ]
