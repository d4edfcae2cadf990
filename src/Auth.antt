-- ===== src/Auth.antt =====
-- backend/src/api/auth/{jwt_verifier,jwks,dependencies,token_context}.py: from a bearer token to the
-- principal of a request. The JWT library and the fetch of the keys are parameters. Times are in
-- milliseconds.
pub mod Verified
use kb_concierge.Prelude.{
  ℕ, ◌+◌, ◌*◌, String, Bool, true, false, ◌&&◌, ◌||◌, not, Option, none, some, List, [],
  if◌then◌else◌, leb, str_eq, non_empty, Dict, lookup, Json, str, bool, null, Fields, get_field,
  get_default, truth,
}
use kb_concierge.Sessions.Access.{
  Principal, PrincipalKind, user_kind, operator_kind, service_kind, agent_kind,
}

-- `_parse_kind`
kind_named : String → PrincipalKind
kind_named s =
    if str_eq s "operator"
    then operator_kind
    else if str_eq s "service"
    then service_kind
    else if str_eq s "agent"
    then agent_kind
    else user_kind

unfoldable pub parse_kind : Option Json → PrincipalKind
unfolding kind_named
parse_kind (some (str s)) = kind_named s
parse_kind _ = user_kind

is_true : Option Json → Bool
is_true (some (bool b)) = b
is_true _ = false

-- `parse_uuid` is `uuid.UUID`, printed again, with `none` for ValueError; `split` is `str.split`.
module _ (render : Json → String) (parse_uuid : String → Option String)
    (split : String → List String) where
  -- `_parse_act_sub`
  unfoldable pub parse_act_sub : Option Json → Option String
  parse_act_sub (some (str s)) = parse_uuid s
  parse_act_sub _ = none

  email_of : Fields → Option String
  unfolding is_true
  email_of claims =
      if truth (get_default "email" null claims) && is_true (get_field "email_verified" claims)
      then some (render (get_default "email" null claims))
      else none

  principal_of : Fields → Option String → Option Principal
  unfolding email_of
  principal_of claims none = none
  principal_of claims (some user_id) = some (record {
    user_id = user_id;
    kind = parse_kind (get_field "kbc_kind" claims);
    scopes = split (render (get_default "scope" (str "") claims));
    on_behalf_of = parse_act_sub (get_field "kbc_act_sub" claims);
    email = email_of claims;
  })

  abbrev pub subject_of : Option Json → Option String
  subject_of none = none
  subject_of (some sub) = parse_uuid (render sub)

  -- `claims_to_principal`; a refusal with 401 is `none`.
  unfoldable pub claims_to_principal : Fields → Option Principal
  unfolding principal_of
  claims_to_principal claims = principal_of claims (subject_of (get_field "sub" claims))

-- `JwksCache`: the keys by their `kid`, each as a text.
pub record Jwks : Type 0 where
  pub keys : Dict String
  pub fetched_at : Option ℕ

-- What a fetch gives: the keys, keys of which one cannot be read (a `PyJWTError`), or another
-- exception.
pub data Fetched : Type 0 where
  keys_read : Dict String → Fetched
  keys_broken fetch_error : Fetched

-- What `get_key` gives: a key, `JwksUnknownKeyError`, or the exception of the fetch.
pub data Found : Type 0 where
  key_of : String → Found
  unknown_key broken_key fetch_failed : Found

abbrev pub empty_jwks : Jwks
empty_jwks = record { keys = []; fetched_at = none }

-- `_expired`
unfoldable pub expired : ℕ → ℕ → Option ℕ → Bool
expired ttl_seconds now none = true
expired ttl_seconds now (some at) = leb (at + ttl_seconds * 1000) now

looked_up : Option String → Found
looked_up none = unknown_key
looked_up (some k) = key_of k

absent : Option String → Bool
absent none = true
absent (some k) = false

-- `_refresh`, and the look-up after it
unfoldable pub refreshed : String → ℕ → Fetched → Jwks → Found × Jwks
unfolding looked_up
refreshed kid after_ fetch_error cache = (fetch_failed, cache)
refreshed kid after_ keys_broken cache = (broken_key, cache)
refreshed kid after_ (keys_read keys) cache =
    (looked_up (lookup kid keys), record { keys = keys; fetched_at = some after_ })

-- `get_key`: the clock before, and after the fetch.
unfoldable pub get_key : ℕ → ℕ → ℕ → Fetched → String → Jwks → Found × Jwks
unfolding absent looked_up
get_key ttl_seconds before after_ fetched kid cache =
    if expired ttl_seconds before cache.fetched_at || absent (lookup kid cache.keys)
    then refreshed kid after_ fetched cache
    else (looked_up (lookup kid cache.keys), cache)

-- A request's outcome: its principal, 401, or an exception that is not meant for the caller.
pub data Verdict : Type 0 where
  accepted : Principal → Verdict
  unauthorized failed : Verdict

-- What a request comes with and what stands outside: the clock, the keys that a fetch gives, the
-- `kid` of a token (`none` for a token that cannot be read), and the verified claims of a token
-- under a key (`none` for any `PyJWTError`), with the printing and reading of values.
pub record Outside : Type 0 where
  pub ttl_seconds : ℕ
  pub before : ℕ
  pub after_ : ℕ
  pub fetched : Fetched
  pub kid_of : String → Option (Option String)
  pub decode : String → String → Option Fields
  pub render : Json → String
  pub parse_uuid : String → Option String
  pub split : String → List String

module _ (o : Outside) where
  of_principal : Option Principal → Verdict
  of_principal none = unauthorized
  of_principal (some p) = accepted p

  of_claims : Option Fields → Verdict
  unfolding of_principal
  of_claims none = unauthorized
  of_claims (some claims) = of_principal (claims_to_principal o.render o.parse_uuid o.split claims)

  of_key : String → Found → Verdict
  unfolding of_claims
  of_key token (key_of key) = of_claims (o.decode token key)
  of_key token unknown_key = unauthorized
  of_key token broken_key = unauthorized
  of_key token fetch_failed = failed

  by_kid : String → String → Jwks → Verdict × Jwks
  unfolding of_key
  by_kid token kid cache =
      let (found, cache') = get_key o.ttl_seconds o.before o.after_ o.fetched kid cache in
      (of_key token found, cache')

  by_header : String → Option (Option String) → Jwks → Verdict × Jwks
  unfolding by_kid
  by_header token none cache = (unauthorized, cache)
  by_header token (some none) cache = (unauthorized, cache)
  by_header token (some (some kid)) cache =
      let given = by_kid token kid cache in if non_empty kid then given else (unauthorized, cache)

  -- `JwtVerifier.verify`
  unfoldable pub verify : String → Jwks → Verdict × Jwks
  unfolding by_header
  verify token cache = by_header token (o.kid_of token) cache

  -- The token that calls on behalf of the user take, `bind_user_access_token`.
  bound : String → Verdict → Option String
  bound token (accepted p) = elim p.kind [ user_kind ↦ some token | _ ↦ none ]
  bound token unauthorized = none
  bound token failed = none

  with_bound : String → Verdict × Jwks → Verdict × Option String × Jwks
  unfolding bound
  with_bound token (verdict, cache) = (verdict, bound token verdict, cache)

  -- `get_current_principal`: whether tokens can be verified at all, and the token that was sent.
  unfoldable pub get_current_principal :
      Bool → Option String → Jwks → Verdict × Option String × Jwks
  unfolding with_bound
  get_current_principal false credentials cache = (unauthorized, none, cache)
  get_current_principal true none cache = (unauthorized, none, cache)
  get_current_principal true (some token) cache = with_bound token (verify token cache)
