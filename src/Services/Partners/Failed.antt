-- ===== src/Services/Partners/Failed.antt =====
-- An order is not created while the service gives nothing.
use kb_concierge.Prelude.{String, ◌≡◌, refl, true, Option, none, some, arith, Json, Fields}
use kb_concierge.Reasoning.Calls.{ToolContext}
use kb_concierge.Reasoning.Writes.Action.{failed}
use kb_concierge.Services.{
  HttpRequest, Token, Send, Exchanged, degraded, crashed, body_of, required_text, optional_text,
  exchange,
}
use kb_concierge.Services.Failures.{IsNoAnswer, IsNoBody, exchange-IsNoBody}
use kb_concierge.Services.Partners.{
  result_of, ref_from, post_request, post, create_from_chat, create_for, create_by,
  run_create_request,
}

module _ (render : Json → String) (token : Option String → Token) (send : Send)
    (h : (r : HttpRequest) → IsNoAnswer (send r)) where
  read-failed :
      (x : Exchanged)
      → IsNoBody x
      → failed (result_of render token send (ref_from render token send x)) ≡ true
  unfolding result_of ref_from
  read-failed degraded nothing_read = refl
  read-failed crashed nothing_read = refl
  read-failed (body_of payload) nothing_read = absurd nothing_read

  post-failed :
      (path : String) (on_behalf_of correlation_id : Option String) (body : Option Fields)
      (key : Option String)
      → failed (
          result_of render token send
            (post render token send path on_behalf_of correlation_id body key))
        ≡ true
  unfolding post
  post-failed path on_behalf_of correlation_id body key =
      let request = post_request path correlation_id body key in
      read-failed (exchange (token on_behalf_of) request send)
        (exchange-IsNoBody (token on_behalf_of) request send h)

  create_from_chat-failed :
      (session_id user raw_input : String) (premises_id booking_id correlation_id : Option String)
      → failed (
          result_of render token send (
            create_from_chat render token send session_id user raw_input premises_id booking_id
              correlation_id))
        ≡ true
  unfolding create_from_chat
  create_from_chat-failed session_id user raw_input premises_id booking_id correlation_id =
      post-failed _ none correlation_id _ _

  create_for-failed :
      (user session_id : Option String) (raw_input : String)
      (premises_id booking_id correlation_id : Option String)
      → failed (
          create_for render token send user session_id raw_input premises_id booking_id
            correlation_id)
        ≡ true
  unfolding create_for
  create_for-failed (some user) (some session_id) raw_input premises_id booking_id correlation_id =
      ground (
        arith,
        create_from_chat-failed session_id user raw_input premises_id booking_id correlation_id,
      )
  create_for-failed (some user) none raw_input premises_id booking_id correlation_id = refl
  create_for-failed none session_id raw_input premises_id booking_id correlation_id = refl

  create_by-failed :
      (context : ToolContext) (raw_input : Option String)
      (premises_id booking_id : Option (Option String))
      → failed (create_by render token send context raw_input premises_id booking_id) ≡ true
  unfolding create_by
  create_by-failed context (some raw_input) (some premises_id) (some booking_id) =
      create_for-failed context.on_behalf_of context.session_id raw_input premises_id booking_id
        context.correlation_id
  create_by-failed context none premises_id booking_id = refl
  create_by-failed context (some raw_input) none booking_id = refl
  create_by-failed context (some raw_input) (some premises_id) none = refl

  pub run_create_request-failed :
      (payload : Fields) (context : ToolContext)
      → failed (run_create_request render token send payload context) ≡ true
  unfolding run_create_request
  run_create_request-failed payload context = ground (
    arith,
    create_by-failed context (required_text "raw_input" 16000 payload)
        (optional_text "premises_id" 255 payload) (optional_text "booking_id" 255 payload),
  )
