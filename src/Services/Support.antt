-- ===== src/Services/Support.antt =====
-- backend/src/api/clients/support/{adapter,models}.py, tools/support.py and tools/handoff.py:
-- tickets of the support.
pub mod Failed
use kb_concierge.Prelude.{
  ℕ, String, Bool, true, false, ◌&&◌, Option, none, some, List, [], ◌∷◌, if◌then◌else◌, fstring,
  non_empty, Dict, Json, null, bool, str, arr, obj, nil, cons, Fields, end, field, get_default,
}
use kb_concierge.Reasoning.Calls.{ToolContext, ToolResult}
use kb_concierge.Services.{
  HttpRequest, Token, Send, Exchanged, degraded, crashed, body_of, exchange, with_header, no_result,
  authorization, only_keys, required_text, optional_text, either_key, is_null, text_or_null,
  text_unless_null,
}

pub record TicketRef : Type 0 where
  pub ticket_id : Option String
  pub number : Option String
  pub status : Option String
  pub unavailable : Bool

-- `TicketRef(unavailable=True)`
abbrev pub no_ticket : TicketRef
no_ticket = record { ticket_id = none; number = none; status = none; unavailable = true }

-- `_ref_data` of tools/support.py
unfoldable pub ticket_data : TicketRef → Fields
ticket_data ref =
    field "ticket_id" (text_or_null ref.ticket_id)
      (field "number" (text_or_null ref.number) (field "status" (text_or_null ref.status) end))

abbrev support_base : String
support_base = "/api/v1/support/tickets"

-- `_headers`, with the key of a ticket where there is one
unfoldable pub ticket_headers : Option String → Option String → String → Dict String
unfolding with_header
ticket_headers correlation_id idempotency_key t =
    authorization t
    ∷ with_header "X-Correlation-Id" correlation_id
        (with_header "Idempotency-Key" idempotency_key [])

-- The request of `_post`, by the token.
ticket_request : String → Option String → Option Fields → Option String → String → HttpRequest
ticket_request path correlation_id body idempotency_key t = record {
  method = "POST";
  path = path;
  headers = ticket_headers correlation_id idempotency_key t;
  body = body;
}

module _ (render : Json → String) (token : Option String → Token) (send : Send) where
  ticket_of : Json → Fields → TicketRef
  unfolding text_unless_null
  ticket_of id fs = if is_null id then no_ticket else record {
    ticket_id = some (render id);
    number = text_unless_null render (get_default "number" null fs);
    status = text_unless_null render (get_default "status" null fs);
    unavailable = false;
  }

  -- The envelope `{data, request_id}`, or the fields themselves.
  inner : Json → Fields → Fields
  inner (obj data_fields) fs = data_fields
  inner _ fs = fs

  in_envelope : Fields → TicketRef
  unfolding ticket_of either_key inner
  in_envelope fs =
      let held = inner (get_default "data" null fs) fs in
      ticket_of (either_key "id" "ticket_id" held) held

  -- `_to_ref`
  unfoldable pub to_ticket : Json → TicketRef
  unfolding in_envelope
  to_ticket (obj fs) = in_envelope fs
  to_ticket _ = no_ticket

  unfoldable pub ticket_from : Exchanged → Option TicketRef
  ticket_from degraded = some no_ticket
  ticket_from crashed = none
  ticket_from (body_of payload) = some (to_ticket payload)

  -- `_post`
  unfoldable pub post_ticket :
      String → Option String → Option String → Option Fields → Option String → Option TicketRef
  unfolding ticket_request
  post_ticket path on_behalf_of correlation_id body idempotency_key =
      ticket_from (
        exchange (token on_behalf_of) (ticket_request path correlation_id body idempotency_key)
          send)

  unfoldable pub create_issue_from_chat :
      String → String → String → Option String → Option TicketRef
  create_issue_from_chat chat_session_id requester_id subject correlation_id =
      post_ticket (fstring (support_base ∷ "/from-chat" ∷ [])) none correlation_id
        (some (
          field "chat_session_id" (str chat_session_id)
            (field "requester_id" (str requester_id) (field "subject" (str subject) end))))
        none

  -- `add_message`: never an internal note.
  unfoldable pub add_message : String → String → Option String → Option String → Option TicketRef
  add_message ticket_id body on_behalf_of correlation_id =
      post_ticket (fstring (support_base ∷ "/" ∷ ticket_id ∷ "/messages" ∷ [])) on_behalf_of
        correlation_id (some (field "body" (str body) (field "is_internal" (bool false) end))) none

  unfoldable pub get_ticket_status : String → Option String → Option String → Option TicketRef
  get_ticket_status ticket_id on_behalf_of correlation_id = ticket_from (
      exchange (token on_behalf_of)
        (λ t. record {
          method = "GET";
          path = fstring (support_base ∷ "/" ∷ ticket_id ∷ []);
          headers = ticket_headers correlation_id none t;
          body = none;
        })
        send)

  transcript : String → String → Json
  transcript reason context_masked = arr (
      cons
        (obj (
          field "role" (str "assistant") (
            field "content"
              (str (fstring ("Причина эскалации: " ∷ reason ∷ "\n\n" ∷ context_masked ∷ []))) end)))
        nil)

  -- `create_ticket`: an escalation; an anonymous session gets no ticket.
  unfoldable pub create_ticket :
      String → String → String → Option String → Option String → Option String → Option TicketRef
  unfolding transcript
  create_ticket reason context_masked session_ref none correlation_id idempotency_key =
      some no_ticket
  create_ticket reason context_masked session_ref (some user) correlation_id idempotency_key =
      post_ticket (fstring (support_base ∷ "/from-chat" ∷ [])) none correlation_id
        (some (
          field "chat_session_id" (str session_ref) (
            field "requester_id" (str user)
              (field "transcript" (transcript reason context_masked) end))))
        idempotency_key

  unfoldable pub ticket_result : Option TicketRef → Option ToolResult
  unfolding ticket_data
  ticket_result none = none
  ticket_result (some ref) =
      some (record { data_fields = ticket_data ref; unavailable = ref.unavailable })

  issue_for : Option String → Option String → Option String → String → Option ToolResult
  issue_for (some user) (some session_id) correlation_id subject =
      if non_empty user && non_empty session_id
      then ticket_result (create_issue_from_chat session_id user subject correlation_id)
      else some no_result
  issue_for (some user) none correlation_id subject = some no_result
  issue_for none session_id correlation_id subject = some no_result

  issue_by : ToolContext → Option String → Option ToolResult
  unfolding issue_for
  issue_by context none = none
  issue_by context (some subject) =
      issue_for context.on_behalf_of context.session_id context.correlation_id subject

  -- `SupportCreateTicketTool.run`
  unfoldable pub run_create_ticket : Fields → ToolContext → Option ToolResult
  unfolding issue_by
  run_create_ticket payload context =
      if only_keys ("subject" ∷ []) payload
      then issue_by context (required_text "subject" 2000 payload)
      else none

  message_by : ToolContext → Option String → Option String → Option ToolResult
  message_by context (some ticket_id) (some body) =
      ticket_result (add_message ticket_id body context.on_behalf_of context.correlation_id)
  message_by context _ _ = none

  -- `SupportAddMessageTool.run`
  unfoldable pub run_add_message : Fields → ToolContext → Option ToolResult
  unfolding message_by
  run_add_message payload context =
      if only_keys ("ticket_id" ∷ "body" ∷ []) payload
      then message_by context (required_text "ticket_id" 255 payload)
          (required_text "body" 8000 payload)
      else none

  ticket_status_by : ToolContext → Option String → Option ToolResult
  ticket_status_by context none = none
  ticket_status_by context (some ticket_id) =
      ticket_result (get_ticket_status ticket_id context.on_behalf_of context.correlation_id)

  -- `SupportGetStatusTool.run`
  unfoldable pub run_ticket_status : Fields → ToolContext → Option ToolResult
  unfolding ticket_status_by
  run_ticket_status payload context =
      if only_keys ("ticket_id" ∷ []) payload
      then ticket_status_by context (required_text "ticket_id" 255 payload)
      else none

  escalated : Option TicketRef → Option ToolResult
  escalated none = none
  escalated (some ref) = some (record {
    data_fields = field "ticket_id" (text_or_null ref.ticket_id) end;
    unavailable = ref.unavailable;
  })

  escalate_by :
      ToolContext
      → Option String
      → Option String
      → Option String
      → Option (Option String)
      → Option ToolResult
  unfolding escalated
  escalate_by context (some reason) (some context_masked) (some session_ref) (some key) =
      escalated (
        create_ticket reason context_masked session_ref context.on_behalf_of context.correlation_id
          key)
  escalate_by context _ _ _ _ = none

  -- `HandoffToOperatorTool.run`
  unfoldable pub run_to_operator : Fields → ToolContext → Option ToolResult
  unfolding escalate_by
  run_to_operator payload context =
      if only_keys ("reason" ∷ "context_masked" ∷ "session_ref" ∷ "idempotency_key" ∷ []) payload
      then escalate_by context (required_text "reason" 64 payload)
          (required_text "context_masked" 16000 payload) (required_text "session_ref" 64 payload)
          (optional_text "idempotency_key" 128 payload)
      else none
