-- ===== src/Services/Knowledge/Limits.antt =====
-- Questions that the tools refuse, and answers with an error status.
use kb_concierge.Prelude.{
  ℕ, ◌<◌, ◌≤◌, String, ◌≡◌, refl, ap, true, false, Option, none, some, length, codes, arith, eq_iff,
  Json, null, str, arr, nil, obj, Fields, end, field, get_field, get_default, truth, truth,
}
use kb_concierge.Reasoning.Calls.{ToolContext, payload_of}
use kb_concierge.Clients.Request.{is_retryable_status}
use kb_concierge.Services.{
  answered, Token, bearer, Send, required_text, sized, fits, only_keys, fetch, each_dict,
  cache_aside, read_any, of_body,
}
use kb_concierge.Services.Knowledge.{
  run_search, run_answer, search, to_result, search_by, search_data, result_from, found, citation,
  limit_of,
}
use kb_concierge.Services.Support.{run_create_ticket}

fits-long : (n : ℕ) (s : String) → n < length (codes s) → fits n s ≡ false
unfolding fits
fits-long n s h = ground arith

required_text-long :
    (k s : String) (n : ℕ) → n < length (codes s) → required_text k n (payload_of k (str s)) ≡ none
unfolding required_text sized get_field
required_text-long k s n h = ground (arith, eq_iff k k, fits-long n s h)

fits-short : (n : ℕ) (s : String) → 1 ≤ length (codes s) → length (codes s) ≤ n → fits n s ≡ true
unfolding fits
fits-short n s low high = ground arith

required_text-short :
    (k s : String) (n : ℕ)
    → 1 ≤ length (codes s)
    → length (codes s) ≤ n
    → required_text k n (payload_of k (str s)) ≡ some s
unfolding required_text sized get_field
required_text-short k s n low high = ground (arith, eq_iff k k, fits-short n s low high)

module _ (render : Json → String) (as_int : Json → Option ℕ) (token : Option String → Token)
    (cached : String → Option Json) (send : Send) (context : ToolContext) where
  -- A question of more than 2000 characters makes the search, the answer and the ticket raise,
  -- whatever the services answer.
  pub run_search-long :
      (question : String)
      → 2000 < length (codes question)
      → (run_search render as_int token cached send (payload_of "query" (str question)) context
          ≡ none)
        × (run_answer render as_int token cached send (payload_of "query" (str question)) context
            ≡ none)
        × (run_create_ticket render token send (payload_of "subject" (str question)) context ≡ none)
  unfolding run_search run_answer run_create_ticket only_keys
  run_search-long question h = (
    rw (required_text-long "query" question 2000 h) refl,
    rw (required_text-long "query" question 2000 h) refl,
    rw (required_text-long "subject" question 2000 h) refl,
  )

module _ (render : Json → String) (as_int : Json → Option ℕ) (token : Option String → Token)
    (cached : String → Option Json) (context : ToolContext) where
  to_result-empty :
      (send : Send) (query : String) (fs : Fields)
      → get_field "data" fs ≡ none
      → to_result render as_int token cached send query (obj fs)
        ≡ some (record { query = query; citations = nil; unavailable = false })
  unfolding to_result found each_dict truth
  to_result-empty send query fs no_data =
      let missing : get_default "data" null fs ≡ null = rw (no_data, get_default) refl in
      ap
        (λ x.
          found render as_int token cached send query
            (each_dict (citation render as_int token cached send) x))
        missing

  -- When the search answers a status that is not to be repeated at, neither 429 nor from 500, with
  -- an object that has no `data`, such as the description of a 401 or a 404, then the tool gives no citations and does not say that the service is
  -- unavailable.
  pub run_search-error_status :
      (query t : String) (code : ℕ) (fs : Fields) (header : Option String)
      → is_retryable_status code ≡ false
      → 1 ≤ length (codes query)
      → length (codes query) ≤ 2000
      → token context.on_behalf_of ≡ bearer t
      → ((key : String) → cached key ≡ none)
      → get_field "data" fs ≡ none
      → run_search render as_int token cached
          (λ r. answered code (some (obj fs)) header)
          (payload_of "query" (str query))
          context
        ≡ some (record {
          data_fields = field "query" (str query) (field "citations" (arr nil) end);
          unavailable = false;
        })
  unfolding run_search search_by search_data search result_from to_result found limit_of fetch
      cache_aside read_any of_body only_keys get_field each_dict truth
  run_search-error_status query t code fs header final low high bears cold no_data =
      rw (required_text-short "query" query 2000 low high) (
        rw bears (
          rw cold (
            rw final (
              ap
                (search_data render as_int token cached (λ r. answered code (some (obj fs)) header))
                (to_result-empty (λ r. answered code (some (obj fs)) header) query fs no_data)))))
