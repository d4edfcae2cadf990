-- ===== src/Tests/Neighbours.antt =====
-- Runs of the tools over services that fail, refuse or answer.
use kb_concierge.Clients.Request.{is_retryable_status}
use Prim.Native.String
use kb_concierge.Prelude.{
  ℕ, zero, suc, inl, String, ◌≡◌, refl, true, false, Option, none, some, [], arith, Dict, Json, num,
  str, arr, obj, nil, cons, Fields, end, field, get_field,
}
use kb_concierge.Reasoning.Calls.{payload_of}
use kb_concierge.Reasoning.Loop.{run}
use kb_concierge.Reasoning.Context.{fetch_estimate}
use kb_concierge.Services.{answered, bearer}
use kb_concierge.Services.Registry.{Configured, Neighbours, deployed}
use kb_concierge.Services.Registry.Down.{deployed-down, fetch_estimate-never}
use kb_concierge.Services.Platform.{to_context}
use kb_concierge.Services.Platform.NoMoney.{known, lists_known, to_context-known}
use kb_concierge.Services.Knowledge.{run_search}
use kb_concierge.Services.Knowledge.Limits.{run_search-error_status}
use kb_concierge.Services.Tokens.{TokenReply, token_answer, Oauth}
use kb_concierge.Tests.Sample

abbrev render : Json → String
render (str s) = s
render _ = "1"

abbrev no_int : Json → Option ℕ
no_int j = none

abbrev neighbours : Neighbours
neighbours = record {
  render = render;
  show = λ n. "1";
  to_int = no_int;
  as_int = no_int;
  as_decimal = λ j. none;
  token = λ service user. bearer "t";
  cached = λ log key. none;
  send = λ service log r. answered 409 (some (obj end)) none;
}

abbrev all_set : Configured
all_set = record {
  kb_search = true;
  kb_rag_answer = true;
  kb_tariffs = true;
  platform = true;
  kb_support = true;
  kb_partners = true;
}

deployed-down_example :
    (run (deployed neighbours all_set (λ k. k) 4) (Sample.turn true) []).0.action_taken ≡ false
deployed-down_example =
    deployed-down neighbours (λ log r. inl (omega arith)) (λ log r. inl (omega arith)) all_set
      (λ k. k) 4 (Sample.turn true) []

fetch_estimate-never_example :
    fetch_estimate (deployed neighbours all_set (λ k. k) 4) "CLEANING" "уборка" Sample.context []
    ≡ ((none, none), [])
fetch_estimate-never_example =
    fetch_estimate-never neighbours all_set (λ k. k) 4 "CLEANING" "уборка" Sample.context []

-- An answer with amounts in it, at the top and in an object.
abbrev with_money : Fields
with_money = field "balance" (num 100) (
    field "premises" (arr (cons (obj (field "id" (str "p1") (field "price" (num 50) end))) nil))
      end)

to_context-known_example :
    to_context render "u1" (obj (known (lists_known with_money)))
    ≡ to_context render "u1" (obj with_money)
to_context-known_example = to_context-known render "u1" with_money

known_drops : known (field "balance" (num 100) end) ≡ end
known_drops = refl

run_search-error_status_example :
    run_search render no_int
      (λ user. bearer "t")
      (λ key. none)
      (λ r. answered 404 (some (obj (field "title" (str "Not Found") end))) none)
      (payload_of "query" (str "договор"))
      Sample.context
    ≡ some (record {
      data_fields = field "query" (str "договор") (field "citations" (arr nil) end);
      unavailable = false;
    })
unfolding get_field is_retryable_status
run_search-error_status_example =
    run_search-error_status render no_int (λ user. bearer "t") (λ key. none) Sample.context
      "договор" "t" 404 (field "title" (str "Not Found") end) none refl (omega arith) (omega arith)
      refl (λ key. refl) refl

repeated : ℕ → String → String
repeated zero s = ""
repeated (suc n) s = String.◌++◌ s (repeated n s)

abbrev long_question : String
long_question = repeated 201 "вопрос без"

abbrev oauth : Oauth
oauth = record { client_id = "agent"; client_secret = "secret"; audience = "kb" }

abbrev token_body : Fields
token_body = field "access_token" (str "t") (field "expires_in" (num 60) end)

abbrev endpoint : Dict String → TokenReply
endpoint form = token_answer 200 (some (obj token_body))
