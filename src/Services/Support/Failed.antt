-- ===== src/Services/Support/Failed.antt =====
-- A ticket is not created while the service gives nothing.
use kb_concierge.Prelude.{String, ◌≡◌, refl, true, Option, none, some, arith, Json, Fields}
use kb_concierge.Reasoning.Calls.{ToolContext}
use kb_concierge.Reasoning.Writes.Action.{failed}
use kb_concierge.Services.{
  HttpRequest, Token, Send, Exchanged, degraded, crashed, body_of, required_text, exchange,
}
use kb_concierge.Services.Failures.{IsNoAnswer, IsNoBody, exchange-IsNoBody}
use kb_concierge.Services.Support.{
  ticket_result, ticket_from, ticket_request, post_ticket, create_issue_from_chat, issue_for,
  issue_by, run_create_ticket,
}

module _ (render : Json → String) (token : Option String → Token) (send : Send)
    (h : (r : HttpRequest) → IsNoAnswer (send r)) where
  read-failed :
      (x : Exchanged)
      → IsNoBody x
      → failed (ticket_result render token send (ticket_from render token send x)) ≡ true
  unfolding ticket_result ticket_from
  read-failed degraded nothing_read = refl
  read-failed crashed nothing_read = refl
  read-failed (body_of payload) nothing_read = absurd nothing_read

  post-failed :
      (path : String) (on_behalf_of correlation_id : Option String) (body : Option Fields)
      (key : Option String)
      → failed (
          ticket_result render token send
            (post_ticket render token send path on_behalf_of correlation_id body key))
        ≡ true
  unfolding post_ticket
  post-failed path on_behalf_of correlation_id body key =
      let request = ticket_request path correlation_id body key in
      read-failed (exchange (token on_behalf_of) request send)
        (exchange-IsNoBody (token on_behalf_of) request send h)

  create_issue_from_chat-failed :
      (session_id user subject : String) (correlation_id : Option String)
      → failed (
          ticket_result render token send
            (create_issue_from_chat render token send session_id user subject correlation_id))
        ≡ true
  unfolding create_issue_from_chat
  create_issue_from_chat-failed session_id user subject correlation_id =
      post-failed _ none correlation_id _ _

  issue_for-failed :
      (user session_id correlation_id : Option String) (subject : String)
      → failed (issue_for render token send user session_id correlation_id subject) ≡ true
  unfolding issue_for
  issue_for-failed (some user) (some session_id) correlation_id subject =
      ground (arith, create_issue_from_chat-failed session_id user subject correlation_id)
  issue_for-failed (some user) none correlation_id subject = refl
  issue_for-failed none session_id correlation_id subject = refl

  issue_by-failed :
      (context : ToolContext) (subject : Option String)
      → failed (issue_by render token send context subject) ≡ true
  unfolding issue_by
  issue_by-failed context none = refl
  issue_by-failed context (some subject) =
      issue_for-failed context.on_behalf_of context.session_id context.correlation_id subject

  pub run_create_ticket-failed :
      (payload : Fields) (context : ToolContext)
      → failed (run_create_ticket render token send payload context) ≡ true
  unfolding run_create_ticket
  run_create_ticket-failed payload context =
      ground (arith, issue_by-failed context (required_text "subject" 2000 payload))
