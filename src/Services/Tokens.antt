-- ===== src/Services/Tokens.antt =====
-- backend/src/api/clients/{auth,oauth}.py: the token of an outgoing call. A user's call goes with a
-- token of that user. Times are in milliseconds.
pub mod Delegation
use kb_concierge.Prelude.{
  ℕ, ◌+◌, ◌-◌, ◌*◌, String, Bool, true, false, ◌&&◌, Option, none, some, List, [], ◌∷◌,
  if◌then◌else◌, leb, ltb, non_empty, codes, occurs, has_str, tuple_of, Result, ok, err, PyError,
  Dict, Json, null, bool, num, str, arr, obj, Fields, get_field, get_default,
}
use kb_concierge.Services.{Token, bearer, token_error, token_crash}

-- What the token endpoint gives: a failure of the transport, or a status and a body.
pub data TokenReply : Type 0 where
  http_error : TokenReply
  token_answer : ℕ → Option Json → TokenReply

-- `_post_token`: the fields of the answer, `ExternalServiceError`, or another exception, which also
-- stands for the one that reading a key of a body that is no object raises.
pub data Posted : Type 0 where
  fields_of : Fields → Posted
  refused broken : Posted

with_key : Fields → Option Json → Posted
with_key fs none = refused
with_key fs (some v) = fields_of fs

has_item : Result PyError (List Json) → Posted
has_item (err e) = broken
has_item (ok xs) = if has_str "access_token" xs then broken else refused

checked : Option Json → Posted
unfolding with_key has_item
checked none = refused
checked (some (obj fs)) = with_key fs (get_field "access_token" fs)
checked (some (str s)) = if occurs (codes "access_token") (codes s) then broken else refused
checked (some (arr xs)) = has_item (tuple_of (arr xs))
checked (some null) = broken
checked (some (bool b)) = broken
checked (some (num n)) = broken

unfoldable pub post_token : TokenReply → Posted
unfolding checked
post_token http_error = refused
post_token (token_answer code body) = if leb 400 code then refused else checked body

pub record Oauth : Type 0 where
  pub client_id : String
  pub client_secret : String
  pub audience : String

-- `ClientCredentialsTokenProvider`: the token that is kept, and until when.
pub record TokenCache : Type 0 where
  pub cached : Option String
  pub expires_at : ℕ

abbrev pub empty_cache : TokenCache
empty_cache = record { cached = none; expires_at = 0 }

abbrev pub expiry_skew : ℕ
expiry_skew = 30000

abbrev exchange_grant : String
exchange_grant = "urn:ietf:params:oauth:grant-type:token-exchange"

abbrev access_token_type : String
access_token_type = "urn:ietf:params:oauth:token-type:access_token"

-- `read_float` is Python's `float` of a text, in milliseconds; `post` is the token endpoint.
module _ (render : Json → String) (read_float : String → Option ℕ) (oauth : Oauth)
    (post : Dict String → TokenReply) where
  -- `expires_in`; an exception is `none`.
  ttl_of : Json → Option ℕ
  ttl_of (num n) = some (n * 1000)
  ttl_of (bool b) = some (if b then 1000 else 0)
  ttl_of (str s) = read_float s
  ttl_of null = some 60000
  ttl_of (arr xs) = some 60000
  ttl_of (obj fs) = some 60000

  access_token : Fields → String
  access_token fs = render (get_default "access_token" null fs)

  -- The token is stored before its term is read.
  keep_token : ℕ → String → Option ℕ → TokenCache → Token × TokenCache
  keep_token now t none cache = (token_crash, record cache { cached = some t })
  keep_token now t (some ttl) cache =
      (bearer t, record { cached = some t; expires_at = now + (ttl - expiry_skew) })

  fetched : ℕ → Posted → TokenCache → Token × TokenCache
  unfolding keep_token ttl_of access_token
  fetched now refused cache = (token_error, cache)
  fetched now broken cache = (token_crash, cache)
  fetched now (fields_of fs) cache =
      keep_token now (access_token fs) (ttl_of (get_default "expires_in" (num 60) fs)) cache

  ask : ℕ → TokenCache → Token × TokenCache
  unfolding fetched
  ask now cache =
      fetched now
        (post_token (
          post (
            ("grant_type", "client_credentials")
            ∷ ("client_id", oauth.client_id)
            ∷ ("client_secret", oauth.client_secret)
            ∷ [])))
        cache

  by_cache : ℕ → ℕ → Option String → TokenCache → Token × TokenCache
  unfolding ask
  by_cache before now none cache = ask now cache
  by_cache before now (some t) cache =
      let asked = ask now cache in if ltb before cache.expires_at then (bearer t, cache) else asked

  -- `ClientCredentialsTokenProvider.get_token`: the clock before, and after an answer.
  unfoldable pub get_m2m : ℕ → ℕ → TokenCache → Token × TokenCache
  unfolding by_cache
  get_m2m before now cache = by_cache before now cache.cached cache

  exchanged : Posted → Token
  unfolding access_token
  exchanged refused = token_error
  exchanged broken = token_crash
  exchanged (fields_of fs) = bearer (access_token fs)

  add_audience : Dict String → Dict String
  add_audience form = if non_empty oauth.audience then ("audience", oauth.audience) ∷ form else form

  -- `TokenExchangeProvider.exchange`
  unfoldable pub exchange_for : String → String → Token
  unfolding exchanged add_audience
  exchange_for subject_token requested_subject = exchanged (
      post_token (
        post (
          add_audience (
            ("grant_type", exchange_grant)
            ∷ ("client_id", oauth.client_id)
            ∷ ("client_secret", oauth.client_secret)
            ∷ ("subject_token", subject_token)
            ∷ ("subject_token_type", access_token_type)
            ∷ ("requested_subject", requested_subject)
            ∷ []))))

  delegated_by : Token → Option String → Token
  delegated_by m2m none = m2m
  delegated_by (bearer t) (some user) = exchange_for t user
  delegated_by token_error (some user) = token_error
  delegated_by token_crash (some user) = token_crash

  -- `OAuth2TokenProvider.get_token`
  unfoldable pub get_token : ℕ → ℕ → TokenCache → Option String → Token × TokenCache
  unfolding delegated_by
  get_token before now cache on_behalf_of =
      let (m2m, cache') = get_m2m before now cache in (delegated_by m2m on_behalf_of, cache')

-- `StaticTokenProvider`
abbrev pub static_token : String → Option String → Token
static_token t on_behalf_of = bearer t

or_base : Option String → Token → Token
or_base none base = base
or_base (some t) base = if non_empty t then bearer t else base

-- `DelegatedUserTokenProvider.get_token`; `user_token` is the token of the request that is served.
unfoldable pub delegated_user_token :
    Option String → (Option String → Token) → Option String → Token
unfolding or_base
delegated_user_token user_token base none = base none
delegated_user_token user_token base (some user) = or_base user_token (base (some user))

-- `build_token_provider`: the provider of the configuration, or a fixed token.
unfoldable pub build_token_provider :
    Bool → (Option String → Token) → String → Option String → Token
build_token_provider configured oauth2 fallback on_behalf_of =
    if configured then oauth2 on_behalf_of else static_token fallback on_behalf_of
