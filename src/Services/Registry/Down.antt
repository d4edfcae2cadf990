-- ===== src/Services/Registry/Down.antt =====
-- What a turn can report when the services that write give nothing.
use kb_concierge.Prelude.{
  String, ℕ, ◌≡◌, refl, Bool, true, false, none, [], ◌∷◌, str_eq, Bool-cases, inl, inr, All,
  All-append, Dict, lookup, Fields,
}
use kb_concierge.Reasoning.Calls.{Log, ToolContext}
use kb_concierge.Reasoning.Context.{fetch_estimate}
use kb_concierge.Reasoning.Loop.{Turn, run}
use kb_concierge.Reasoning.Consent.{run-down}
use kb_concierge.Reasoning.Writes.Action.{failed, NoWrites}
use kb_concierge.Services.{HttpRequest}
use kb_concierge.Services.Failures.{IsNoAnswer}
use kb_concierge.Services.Partners.Failed.{run_create_request-failed}
use kb_concierge.Services.Support.Failed.{run_create_ticket-failed}
use kb_concierge.Services.Registry.{
  Configured, Neighbours, Tool, registry, deployed, run_tool, is_there, if_set, support_tools,
  partners_tools, search_tool, answer_tool, quote_tool, context_tool,
}

-- No exchange with a service brings a result.
abbrev pub IsSilent : Neighbours → String → Type 0
IsSilent n service = (log : Log) (r : HttpRequest) → IsNoAnswer (n.send service log r)

-- If the tool has this name, it gives nothing.
abbrev FailsAs : String → String × Tool → Type 0
FailsAs k tool =
    str_eq tool.0 k ≡ true
    → (log : Log) (payload : Fields) (context : ToolContext)
    → failed (tool.1 log payload context) ≡ true

if_set-All :
    (P : String × Tool → Type 0) (b : Bool) (tools : Dict Tool)
    → All P tools
    → All P (if_set b tools)
unfolding if_set
if_set-All P true tools h = h
if_set-All P false tools h = tt

-- What holds of every tool holds of those that are registered.
registry-All :
    (P : String × Tool → Type 0) (n : Neighbours) (c : Configured)
    → P ("kb.search", search_tool n)
    → P ("kb.answer", answer_tool n)
    → P ("pricing.quote", quote_tool n)
    → P ("platform.get_context", context_tool n)
    → All P (support_tools n)
    → All P (partners_tools n)
    → All P (registry n c)
unfolding registry
registry-All P n c searches answers quotes contexts tickets orders =
    let append = λ (front back : Dict Tool) (f : All P front) (b : All P back).
      All-append P front back (f, b) in
    append _ _ (if_set-All P c.kb_search _ (searches, if_set-All P c.kb_rag_answer _ (answers, tt)))
      (append _ _ (if_set-All P c.kb_tariffs _ (quotes, tt)) (
        append _ _ (if_set-All P c.platform _ (contexts, tt))
          (append _ _ (if_set-All P c.kb_support _ tickets) (if_set-All P c.kb_partners _ orders))))

module _ (n : Neighbours) (partners : IsSilent n "kb_partners") (support : IsSilent n "kb_support")
    (c : Configured) where
  tickets-All : All (FailsAs "support.create_ticket") (registry n c)
  tickets-All =
      registry-All (FailsAs "support.create_ticket") n c (λ e. cc) (λ e. cc) (λ e. cc) (λ e. cc)
        (
          λ e log.
              run_create_ticket-failed n.render (n.token "kb_support") (n.send "kb_support" log)
                (support log),
          (λ e. cc, (λ e. cc, tt)),
        )
        (λ e. cc, (λ e. cc, (λ e. cc, (λ e. cc, tt))))

  orders-All : All (FailsAs "partners.create_request") (registry n c)
  orders-All =
      registry-All (FailsAs "partners.create_request") n c (λ e. cc) (λ e. cc) (λ e. cc) (λ e. cc)
        (λ e. cc, (λ e. cc, (λ e. cc, tt)))
        (
          λ e log.
              run_create_request-failed n.render (n.token "kb_partners") (n.send "kb_partners" log)
                (partners log),
          (λ e. cc, (λ e. cc, (λ e. cc, tt))),
        )

  lookup-failed :
      (k : String) (tools : Dict Tool) (log : Log) (payload : Fields) (context : ToolContext)
      → All (FailsAs k) tools
      → failed (
          run_tool n
            (lookup k tools)
            log
            (record { tool = k; payload = payload; context = context }))
        ≡ true
  unfolding run_tool
  lookup-failed k [] log payload context h = refl
  lookup-failed k ((j, tool) ∷ tools) log payload context h = elim (Bool-cases (str_eq j k)) [
    | inl e ↦ rw e (h.0 e log payload context)
    | inr e ↦ rw e (lookup-failed k tools log payload context h.1)
  ]

  deployed-NoWrites :
      (reply : String → String) (max_tool_calls : ℕ) → NoWrites (deployed n c reply max_tool_calls)
  unfolding deployed
  deployed-NoWrites reply max_tool_calls log payload context = (
    lookup-failed "partners.create_request" (registry n c) log payload context orders-All,
    lookup-failed "support.create_ticket" (registry n c) log payload context tickets-All,
  )

  -- Whatever is configured, and whatever the other services do: if the service of the partners and
  -- that of the support only fail, give statuses of 400 or more, or bodies that are no JSON, then
  -- no turn over the tools that the service builds reports an action.
  pub deployed-down :
      (reply : String → String) (max_tool_calls : ℕ) (turn : Turn) (log : Log)
      → (run (deployed n c reply max_tool_calls) turn log).0.action_taken ≡ false
  deployed-down reply max_tool_calls turn log =
      run-down (deployed n c reply max_tool_calls) turn log (deployed-NoWrites reply max_tool_calls)

-- A tool of another name.
abbrev IsOther : String → String × Tool → Type 0
IsOther k tool = str_eq tool.0 k ≡ false

lookup-other : (k : String) (tools : Dict Tool) → All (IsOther k) tools → lookup k tools ≡ none
lookup-other k [] h = refl
lookup-other k ((j, tool) ∷ tools) h = rw h.0 (lookup-other k tools h.1)

module _ (n : Neighbours) (c : Configured) (reply : String → String) (max_tool_calls : ℕ) where
  no_estimate : lookup "partners.estimate" (registry n c) ≡ none
  no_estimate = lookup-other "partners.estimate" (registry n c) (
      registry-All (IsOther "partners.estimate") n c refl refl refl refl (refl, (refl, (refl, tt)))
        (refl, (refl, (refl, (refl, tt)))))

  -- Whatever is configured, the tool that estimates an order is not among those that the service
  -- builds: an estimate is never asked for, and never there.
  pub fetch_estimate-never :
      (category query : String) (context : ToolContext) (log : Log)
      → fetch_estimate (deployed n c reply max_tool_calls) category query context log
        ≡ ((none, none), log)
  unfolding fetch_estimate deployed is_there
  fetch_estimate-never category query context log = rw no_estimate refl
