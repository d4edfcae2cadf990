-- ===== src/Services/Knowledge.antt =====
-- backend/src/api/clients/{search,chat}/{adapter,models}.py, tools/search.py and
-- tools/chat_answer.py: retrieval from the knowledge base, and its answers.
pub mod Limits
use kb_concierge.Prelude.{
  ℕ, String, Bool, true, false, ◌&&◌, Option, none, some, List, [], ◌∷◌, if◌then◌else◌, leb,
  fstring, non_empty, Json, null, num, str, arr, obj, Items, nil, Fields, end, field, get_field,
  get_default, truth,
}
use kb_concierge.Reasoning.Calls.{ToolContext, ToolResult}
use kb_concierge.Services.{
  HttpRequest, Reply, answered, Token, bearer, token_error, token_crash, Send, Exchanged, degraded,
  crashed, body_of, read_reply, fetch, authorization, with_header, only_keys, required_text,
  text_or_null, each_dict, first_chars,
}

-- `SearchResult`; a citation is an object of four keys.
pub record SearchResult : Type 0 where
  pub query : String
  pub citations : Items
  pub unavailable : Bool

pub record ChatAnswer : Type 0 where
  pub query : String
  pub answer : Option String
  pub citations : Items
  pub unavailable : Bool

abbrev pub no_search : String → SearchResult
no_search query = record { query = query; citations = nil; unavailable = true }

abbrev pub no_answer : String → ChatAnswer
no_answer query = record { query = query; answer = none; citations = nil; unavailable = true }

-- `on_behalf_of or '-'`
or_dash : Option String → String
or_dash none = "-"
or_dash (some s) = if non_empty s then s else "-"

abbrev sessions_path : String
sessions_path = "/api/v1/chat/sessions"

-- `cached` is what the cache holds under a key; `as_int` is the reading of an integer field.
module _ (render : Json → String) (as_int : Json → Option ℕ) (token : Option String → Token)
    (cached : String → Option Json) (send : Send) where
  -- `Citation(…)` of a hit, by `asdict`
  citation : Fields → Fields
  citation item =
      let snippet = get_default "snippet" null item in
      field "source_id" (str (render (get_default "id" (str "") item))) (
        field "title" (str (render (get_default "title" (str "") item))) (
          field "snippet" (str (if truth snippet then render snippet else ""))
            (field "url" (get_default "url" null item) end)))

  found : String → Option Items → Option SearchResult
  found query none = none
  found query (some citations) =
      some (record { query = query; citations = citations; unavailable = false })

  -- `_to_result`
  unfoldable pub to_result : String → Json → Option SearchResult
  unfolding found citation each_dict
  to_result query (obj fs) = found query (each_dict citation (get_default "data" null fs))
  to_result query _ = found query (some nil)

  result_from : String → Exchanged → Option SearchResult
  result_from query degraded = some (no_search query)
  result_from query crashed = none
  result_from query (body_of payload) = to_result query payload

  -- `HttpKbSearchClient.search`
  unfoldable pub search : String → ℕ → Option String → Option SearchResult
  unfolding result_from or_dash
  search query limit on_behalf_of = result_from query (
      fetch (token on_behalf_of)
        (cached (
          fstring ("search:" ∷ or_dash on_behalf_of ∷ ":" ∷ render (num limit) ∷ ":" ∷ query ∷ [])))
        (λ t. record {
          method = "POST";
          path = "/api/v1/search";
          headers = authorization t ∷ [];
          body = some (field "query" (str (first_chars 500 query)) (field "limit" (num limit) end));
        })
        send)

  search_data : Option SearchResult → Option ToolResult
  search_data none = none
  search_data (some r) = some (record {
    data_fields = field "query" (str r.query) (field "citations" (arr r.citations) end);
    unavailable = r.unavailable;
  })

  in_range : Option ℕ → Option ℕ
  in_range none = none
  in_range (some n) = if leb 1 n && leb n 20 then some n else none

  -- `Field(default=5, ge=1, le=20)`
  limit_of : Option Json → Option ℕ
  unfolding in_range
  limit_of none = some 5
  limit_of (some x) = in_range (as_int x)

  search_by : ToolContext → Option String → Option ℕ → Option ToolResult
  unfolding search_data
  search_by context (some query) (some limit) =
      search_data (search query limit context.on_behalf_of)
  search_by context (some query) none = none
  search_by context none limit = none

  -- `KbSearchTool.run`
  unfoldable pub run_search : Fields → ToolContext → Option ToolResult
  unfolding search_by limit_of
  run_search payload context =
      if only_keys ("query" ∷ "limit" ∷ []) payload
      then search_by context (required_text "query" 2000 payload)
          (limit_of (get_field "limit" payload))
      else none

  -- The citation of a chat answer has no snippet.
  chat_citation : Fields → Fields
  chat_citation c = field "source_id" (str (render (get_default "id" (str "") c))) (
      field "title" (str (render (get_default "title" (str "") c)))
        (field "snippet" (str "") (field "url" (get_default "url" null c) end)))

  text_only : Json → Option String
  text_only (str s) = some s
  text_only _ = none

  said : String → Fields → Option Items → Option ChatAnswer
  unfolding text_only
  said query fs none = none
  said query fs (some citations) = some (record {
    query = query;
    answer = text_only (get_default "content" null fs);
    citations = citations;
    unavailable = false;
  })

  -- `_to_answer`
  unfoldable pub to_answer : String → Json → Option ChatAnswer
  unfolding said chat_citation each_dict
  to_answer query (obj fs) =
      said query fs (each_dict chat_citation (get_default "citations" null fs))
  to_answer query _ = some (no_answer query)

  answer_from : String → Exchanged → Option ChatAnswer
  answer_from query degraded = some (no_answer query)
  answer_from query crashed = none
  answer_from query (body_of payload) = to_answer query payload

  -- `session_data.get("id")` of an object
  session_id_of : Json → Json
  session_id_of (obj fs) = get_default "id" null fs
  session_id_of _ = null

  -- A token that is there and not empty.
  session_token_of : Reply → Option String
  session_token_of (answered code body (some t)) = if non_empty t then some t else none
  session_token_of _ = none

  send_message : String → String → Json → Option String → Option ChatAnswer
  unfolding answer_from
  send_message query t session_id session_token =
      if truth session_id
      then answer_from query (
          read_reply (
            send (record {
              method = "POST";
              path = fstring (sessions_path ∷ "/" ∷ render session_id ∷ "/messages" ∷ []);
              headers =
                  authorization t
                  ∷ ("Accept", "application/json")
                  ∷ with_header "X-Chat-Session-Token" session_token [];
              body = some (field "content" (str (first_chars 2000 query)) end);
            })))
      else some (no_answer query)

  in_session : String → String → Option String → Exchanged → Option ChatAnswer
  unfolding send_message session_id_of
  in_session query t session_token degraded = some (no_answer query)
  in_session query t session_token crashed = none
  in_session query t session_token (body_of payload) =
      send_message query t (session_id_of payload) session_token

  with_token : String → Token → Option ChatAnswer
  unfolding in_session session_token_of
  with_token query token_error = some (no_answer query)
  with_token query token_crash = none
  with_token query (bearer t) =
      let session = send (record {
        method = "POST";
        path = sessions_path;
        headers = authorization t ∷ [];
        body = some end;
      }) in
      in_session query t (session_token_of session) (read_reply session)

  -- `HttpKbChatClient.answer`
  unfoldable pub chat_answer : String → Option String → Option ChatAnswer
  unfolding with_token
  chat_answer query on_behalf_of = with_token query (token on_behalf_of)

  answer_data : Option ChatAnswer → Option ToolResult
  answer_data none = none
  answer_data (some r) = some (record {
    data_fields =
        field "query" (str r.query)
          (field "answer" (text_or_null r.answer) (field "citations" (arr r.citations) end));
    unavailable = r.unavailable;
  })

  answer_by : ToolContext → Option String → Option ToolResult
  unfolding answer_data
  answer_by context none = none
  answer_by context (some query) = answer_data (chat_answer query context.on_behalf_of)

  -- `KbAnswerTool.run`
  unfoldable pub run_answer : Fields → ToolContext → Option ToolResult
  unfolding answer_by
  run_answer payload context =
      if only_keys ("query" ∷ []) payload
      then answer_by context (required_text "query" 2000 payload)
      else none
