-- ===== src/Reasoning/Context.antt =====
-- The read-only look-ups of reasoning/loop.py that a session makes beside `run`: the address and
-- the management contact of the user's only object, the estimate of a service, and the forwarding
-- of a message to a ticket.
use kb_concierge.Prelude.{
  String, Bool, true, false, ◌&&◌, not, Option, none, some, if◌then◌else◌, Json, str, arr, obj,
  cons, nil, end, field, truth,
}
use kb_concierge.Reasoning.Calls.{Env, ToolContext, ToolResult, M, pure, ◌>>=◌, call}
use kb_concierge.Reasoning.Replies.{get}

module _ (env : Env) where
  -- `str(x) if x else None`
  text_or_none : Json → Option String
  text_or_none x = if truth x then some (env.render x) else none

  -- `premises[0].get(key)` where there is one object, and it is a dict
  only_premises : String → Json → Option String
  unfolding text_or_none
  only_premises key (arr (cons (obj fs) nil)) = text_or_none (get key fs)
  only_premises key _ = none

  from_context : String → Option ToolResult → Option String
  unfolding only_premises
  from_context key none = none
  from_context key (some r) =
      if r.unavailable then none else only_premises key (get "premises" r.data_fields)

  has_user : Option String → Bool
  has_user none = false
  has_user (some _) = true

  -- `fetch_address` with the key "address", `fetch_management_contact` with "management_contact"
  unfoldable pub fetch_of_object : String → ToolContext → M (Option String)
  unfolding from_context has_user
  fetch_of_object key context =
      if has_user context.on_behalf_of && env.registered "platform.get_context"
      then (do result ← call env "platform.get_context" end context; pure (from_context key result))
      else pure none

  estimate_of : Option ToolResult → Option String × Option String
  unfolding text_or_none
  estimate_of none = (none, none)
  estimate_of (some r) =
      if r.unavailable
      then (none, none)
      else (text_or_none (get "price_range" r.data_fields), text_or_none (get "eta" r.data_fields))

  -- `fetch_estimate`: the price range and the term, each if it is there.
  unfoldable pub fetch_estimate : String → String → ToolContext → M (Option String × Option String)
  unfolding estimate_of
  fetch_estimate category query context =
      if env.registered "partners.estimate"
      then (do
        result ←
            call env "partners.estimate"
              (field "category" (str category) (field "query" (str query) end)) context
        pure (estimate_of result))
      else pure (none, none)

  delivered : Option ToolResult → Bool
  delivered none = false
  delivered (some r) = not r.unavailable

  -- `forward_to_ticket`
  unfoldable pub forward_to_ticket : String → String → ToolContext → M Bool
  unfolding delivered
  forward_to_ticket ticket_id body context =
      if env.registered "support.add_message"
      then (do
        result ←
            call env "support.add_message"
              (field "ticket_id" (str ticket_id) (field "body" (str body) end)) context
        pure (delivered result))
      else pure false
