-- ===== src/Services.antt =====
-- backend/src/api/clients/*/adapter.py and tools/*.py: the tools of the agent over the neighbouring
-- services. Here is what they share: a request, what the HTTP client gives for it, the token, and
-- the checks of a tool's input.
pub mod Failures
pub mod Partners
pub mod Support
pub mod Knowledge
pub mod Platform
pub mod Tariffs
pub mod Tokens
pub mod Registry
use Prim.Native.String
use kb_concierge.Prelude.{
  tuple_of, Result, ok, err, PyError, zero, suc, ℕ, String, Bool, true, false, ◌&&◌, not, Option,
  none, some, List, [], ◌∷◌, if◌then◌else◌, leb, length, str_eq, any, get_default, codes, fstring,
  Dict, Json, null, bool, num, str, arr, obj, Items, nil, cons, Fields, end, field, get_field,
  truth,
}
use kb_concierge.Clients.Request.{is_retryable_status}
use kb_concierge.Reasoning.Calls.{ToolResult}

pub record HttpRequest : Type 0 where
  pub method : String
  pub path : String
  pub headers : Dict String
  pub body : Option Fields

-- What becomes of a request of `ResilientHttpClient`: no answer or an open breaker, which is an
-- `ExternalServiceError`, another exception, or the last response with its status, its JSON if it is
-- JSON, and the token header of a chat session.
pub data Reply : Type 0 where
  service_error other_error : Reply
  answered : ℕ → Option Json → Option String → Reply

-- What `TokenProvider.get_token` gives.
pub data Token : Type 0 where
  bearer : String → Token
  token_error token_crash : Token

abbrev pub Send : Type 0
Send = HttpRequest → Reply

-- The JSON of an exchange, its failure by `ExternalServiceError` or a status of 400 or more, or
-- another exception.
pub data Exchanged : Type 0 where
  degraded crashed : Exchanged
  body_of : Json → Exchanged

of_body : Option Json → Exchanged
of_body none = crashed
of_body (some j) = body_of j

-- `if response.status_code >= 400`, and `response.json()`
unfoldable pub read_reply : Reply → Exchanged
unfolding of_body
read_reply service_error = degraded
read_reply other_error = crashed
read_reply (answered code body token) = if leb 400 code then degraded else of_body body

-- One request with the token in it; getting the token stands in the same `try`.
unfoldable pub exchange : Token → (String → HttpRequest) → Send → Exchanged
exchange token_error request send = degraded
exchange token_crash request send = crashed
exchange (bearer t) request send = read_reply (send (request t))

-- `response.json()` of a response that `request` gives, as `get_json` and `post_json` read it: for a
-- status to repeat at, 429 or from 500, `request` raises `ExternalServiceError`.
read_any : Reply → Exchanged
unfolding of_body
read_any service_error = degraded
read_any other_error = crashed
read_any (answered code body token) = if is_retryable_status code then degraded else of_body body

-- `get_json` and `post_json` of clients/base.py: the cached JSON, or a request.
unfoldable pub cache_aside : Option Json → Reply → Exchanged
unfolding read_any
cache_aside none reply = read_any reply
cache_aside (some payload) reply = body_of payload

-- The token is got before the cache is read.
unfoldable pub fetch : Token → Option Json → (String → HttpRequest) → Send → Exchanged
fetch token_error cached request send = degraded
fetch token_crash cached request send = crashed
fetch (bearer t) cached request send = cache_aside cached (send (request t))

-- A header that is there only with a value.
unfoldable pub with_header : String → Option String → Dict String → Dict String
with_header name none headers = headers
with_header name (some v) headers = (name, v) ∷ headers

-- `{"Authorization": f"Bearer {token}"}`
abbrev pub authorization : String → String × String
authorization t = ("Authorization", fstring ("Bearer " ∷ t ∷ []))

-- Input checks: a field of a model that takes no other fields.
unfoldable pub only_keys : List String → Fields → Bool
only_keys ks end = true
only_keys ks (field k v fs) = any (λ j. str_eq j k) ks && only_keys ks fs

-- `Field(min_length=1, max_length=n)`
fits : ℕ → String → Bool
fits n s = leb 1 (length (codes s)) && leb (length (codes s)) n

sized : ℕ → Option Json → Option String
unfolding fits
sized n (some (str s)) = if fits n s then some s else none
sized n _ = none

unfoldable pub required_text : String → ℕ → Fields → Option String
unfolding sized
required_text k n payload = sized n (get_field k payload)

-- An optional text; the outer `none` is a wrong value.
at_most : ℕ → Option Json → Option (Option String)
at_most n none = some none
at_most n (some null) = some none
at_most n (some (str s)) = if leb (length (codes s)) n then some (some s) else none
at_most n (some _) = none

unfoldable pub optional_text : String → ℕ → Fields → Option (Option String)
unfolding at_most
optional_text k n payload = at_most n (get_field k payload)

-- `x.get(a) or x.get(b)`, a missing key read as null
unfoldable pub either_key : String → String → Fields → Json
either_key a b fs =
    let first = get_default a null fs in if truth first then first else get_default b null fs

abbrev pub is_null : Json → Bool
is_null null = true
is_null _ = false

-- A text that may be missing, as JSON.
abbrev pub text_or_null : Option String → Json
text_or_null none = null
text_or_null (some s) = str s

module _ (render : Json → String) where
  -- `str(x) if x is not None else None`
  unfoldable pub text_unless_null : Json → Option String
  text_unless_null x = if is_null x then none else some (render x)

-- `ToolResult(unavailable=True)`
abbrev pub no_result : ToolResult
no_result = record { data_fields = end; unavailable = true }

add_dict : (Fields → Fields) → Json → Items → Items
add_dict f (obj fs) rest = cons (obj (f fs)) rest
add_dict f _ rest = rest

-- `[f(x) for x in (xs or []) if isinstance(x, dict)]`; what cannot be iterated raises.
dicts_of : (Fields → Fields) → List Json → Items
dicts_of f [] = nil
dicts_of f (x ∷ xs) = add_dict f x (dicts_of f xs)

listed : (Fields → Fields) → Result PyError (List Json) → Option Items
listed f (err e) = none
listed f (ok xs) = some (dicts_of f xs)

unfoldable pub each_dict : (Fields → Fields) → Json → Option Items
unfolding listed dicts_of add_dict
each_dict f xs = if truth xs then listed f (tuple_of xs) else some nil

-- `s[:n]`
unfoldable pub first_chars : ℕ → String → String
first_chars zero s = ""
first_chars (suc n) String.[] = ""
first_chars (suc n) (String.◌∷◌ c s) = String.◌∷◌ c (first_chars n s)
