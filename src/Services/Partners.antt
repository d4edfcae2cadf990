-- ===== src/Services/Partners.antt =====
-- backend/src/api/clients/partners/{adapter,models}.py and tools/partners.py: orders with partners.
pub mod Failed
use kb_concierge.Prelude.{
  ℕ, String, Bool, true, false, ◌&&◌, not, Option, none, some, List, [], ◌∷◌, if◌then◌else◌,
  fstring, Dict, non_empty, Json, null, str, obj, Fields, end, field, get_default,
}
use kb_concierge.Reasoning.Calls.{ToolContext, ToolResult}
use kb_concierge.Services.{
  HttpRequest, Token, Send, Exchanged, degraded, crashed, body_of, exchange, with_header, no_result,
  authorization, only_keys, required_text, optional_text, either_key, is_null, text_or_null,
  text_unless_null,
}

pub record PartnerRequestRef : Type 0 where
  pub request_id : Option String
  pub number : Option String
  pub category : Option String
  pub status : Option String
  pub unavailable : Bool

-- `PartnerRequestRef(unavailable=True)`
abbrev pub no_ref : PartnerRequestRef
no_ref = record {
  request_id = none;
  number = none;
  category = none;
  status = none;
  unavailable = true;
}

-- `_ref_data` of tools/partners.py, and the result of a tool
unfoldable pub ref_data : PartnerRequestRef → Fields
ref_data ref = field "request_id" (text_or_null ref.request_id) (
    field "number" (text_or_null ref.number)
      (field "category" (text_or_null ref.category) (field "status" (text_or_null ref.status) end)))

abbrev requests : String
requests = "/api/v1/partners/requests"

-- `_headers`
unfoldable pub headers : Option String → Option String → String → Dict String
unfolding with_header
headers correlation_id idempotency_key t =
    authorization t
    ∷ with_header "X-Correlation-Id" correlation_id
        (with_header "Idempotency-Key" idempotency_key [])

-- The request of `_post`, by the token.
post_request : String → Option String → Option Fields → Option String → String → HttpRequest
post_request path correlation_id body idempotency_key t = record {
  method = "POST";
  path = path;
  headers = headers correlation_id idempotency_key t;
  body = body;
}

module _ (render : Json → String) (token : Option String → Token) (send : Send) where
  ref_of : Json → Fields → PartnerRequestRef
  unfolding text_unless_null
  ref_of id fs = if is_null id then no_ref else record {
    request_id = some (render id);
    number = text_unless_null render (get_default "number" null fs);
    category = text_unless_null render (get_default "category" null fs);
    status = text_unless_null render (get_default "status" null fs);
    unavailable = false;
  }

  -- `_to_ref`
  unfoldable pub to_ref : Json → PartnerRequestRef
  unfolding ref_of either_key
  to_ref (obj fs) = ref_of (either_key "id" "request_id" fs) fs
  to_ref _ = no_ref

  -- An exception is `none`.
  unfoldable pub ref_from : Exchanged → Option PartnerRequestRef
  ref_from degraded = some no_ref
  ref_from crashed = none
  ref_from (body_of payload) = some (to_ref payload)

  -- `_post`
  unfoldable pub post :
      String
      → Option String
      → Option String
      → Option Fields
      → Option String
      → Option PartnerRequestRef
  unfolding post_request
  post path on_behalf_of correlation_id body idempotency_key =
      ref_from
        (exchange (token on_behalf_of) (post_request path correlation_id body idempotency_key) send)

  add_text : String → Option String → Fields → Fields
  add_text k none fs = fs
  add_text k (some s) fs = field k (str s) fs

  unfoldable pub create_from_chat :
      String
      → String
      → String
      → Option String
      → Option String
      → Option String
      → Option PartnerRequestRef
  unfolding add_text
  create_from_chat chat_session_id requester_id raw_input premises_id booking_id correlation_id =
      post (fstring (requests ∷ "/from-chat" ∷ [])) none correlation_id
        (some (
          field "chat_session_id" (str chat_session_id) (
            field "requester_id" (str requester_id) (
              field "raw_input" (str raw_input)
                (add_text "premises_id" premises_id (add_text "booking_id" booking_id end))))))
        (some (fstring ("create:" ∷ chat_session_id ∷ [])))

  -- `classify` and `dispatch`, by their name
  unfoldable pub act_on : String → String → Option String → Option String → Option PartnerRequestRef
  act_on action request_id on_behalf_of correlation_id =
      post (fstring (requests ∷ "/" ∷ request_id ∷ "/" ∷ action ∷ [])) on_behalf_of correlation_id
        none (some (fstring (action ∷ ":" ∷ request_id ∷ [])))

  unfoldable pub get_status : String → Option String → Option String → Option PartnerRequestRef
  get_status request_id on_behalf_of correlation_id = ref_from (
      exchange (token on_behalf_of)
        (λ t. record {
          method = "GET";
          path = fstring (requests ∷ "/" ∷ request_id ∷ []);
          headers = headers correlation_id none t;
          body = none;
        })
        send)

  -- `ToolResult(data=_ref_data(ref), unavailable=ref.unavailable)`
  unfoldable pub result_of : Option PartnerRequestRef → Option ToolResult
  unfolding ref_data
  result_of none = none
  result_of (some ref) = some (record { data_fields = ref_data ref; unavailable = ref.unavailable })

  -- An anonymous session has no requester.
  create_for :
      Option String
      → Option String
      → String
      → Option String
      → Option String
      → Option String
      → Option ToolResult
  create_for (some user) (some session_id) raw_input premises_id booking_id correlation_id =
      if non_empty user && non_empty session_id
      then result_of
          (create_from_chat session_id user raw_input premises_id booking_id correlation_id)
      else some no_result
  create_for (some user) none raw_input premises_id booking_id correlation_id = some no_result
  create_for none session_id raw_input premises_id booking_id correlation_id = some no_result

  create_by :
      ToolContext
      → Option String
      → Option (Option String)
      → Option (Option String)
      → Option ToolResult
  create_by context (some raw_input) (some premises_id) (some booking_id) =
      create_for context.on_behalf_of context.session_id raw_input premises_id booking_id
        context.correlation_id
  create_by context _ _ _ = none

  -- `PartnersCreateRequestTool.run`
  unfoldable pub run_create_request : Fields → ToolContext → Option ToolResult
  unfolding create_by create_for
  run_create_request payload context =
      if only_keys ("raw_input" ∷ "premises_id" ∷ "booking_id" ∷ []) payload
      then create_by context (required_text "raw_input" 16000 payload)
          (optional_text "premises_id" 255 payload) (optional_text "booking_id" 255 payload)
      else none

  on_request : (String → Option PartnerRequestRef) → Option String → Option ToolResult
  on_request f none = none
  on_request f (some request_id) = result_of (f request_id)

  -- `_RequestIdInput` and what is done with it
  with_request_id : (String → Option PartnerRequestRef) → Fields → Option ToolResult
  unfolding on_request
  with_request_id f payload =
      if only_keys ("request_id" ∷ []) payload
      then on_request f (required_text "request_id" 255 payload)
      else none

  -- `PartnersClassifyTool.run`, `PartnersDispatchTool.run` and `PartnersGetStatusTool.run`
  unfoldable pub run_classify : Fields → ToolContext → Option ToolResult
  unfolding with_request_id
  run_classify payload context =
      with_request_id (λ id. act_on "classify" id context.on_behalf_of context.correlation_id)
        payload

  unfoldable pub run_dispatch : Fields → ToolContext → Option ToolResult
  unfolding with_request_id
  run_dispatch payload context =
      with_request_id (λ id. act_on "dispatch" id context.on_behalf_of context.correlation_id)
        payload

  unfoldable pub run_get_status : Fields → ToolContext → Option ToolResult
  unfolding with_request_id
  run_get_status payload context =
      with_request_id (λ id. get_status id context.on_behalf_of context.correlation_id) payload
