-- ===== src/Services/Tokens/Delegation.antt =====
-- Under whose rights a call goes out, and how long a token is kept.
use kb_concierge.Prelude.{
  lookup, get_field, obj, ℕ, ◌+◌, ◌-◌, ◌*◌, ◌<◌, ◌≤◌, String, ◌≡◌, Option, some, arith, Dict, Json,
  num, Fields, get_default,
}
use kb_concierge.Services.{token_error}
use kb_concierge.Services.Tokens.{
  token_answer, TokenReply, http_error, fields_of, post_token, Oauth, empty_cache, expiry_skew,
  get_m2m, by_cache, ask, fetched, keep_token, ttl_of,
}

module _ (render : Json → String) (read_float : String → Option ℕ) (oauth : Oauth)
    (post : Dict String → TokenReply) where
  -- A form that asks for an exchange of the service's token `m` for the user's.
  abbrev pub AsksExchange : String → String → Dict String → Type 0
  AsksExchange m user form =
      (lookup "grant_type" form ≡ some "urn:ietf:params:oauth:grant-type:token-exchange")
      × (lookup "subject_token" form ≡ some m)
      × (lookup "requested_subject" form ≡ some user)

  -- The endpoint answers the form, with a status below 400, an object whose access token is `t`.
  abbrev pub Grants : Dict String → String → Type 0
  Grants form t =
      (code : ℕ) × (fs : Fields) × (v : Json) × (post form ≡ token_answer code (some (obj fs)))
      × (code < 400)
      × (get_field "access_token" fs ≡ some v)
      × (render v ≡ t)

  -- The service's own token, got from an endpoint that names a term, is given again without a
  -- request until half a minute before the term ends; from then on it is not used, and when the
  -- endpoint is down there is no token.
  pub get_m2m-kept :
      (before now seconds later after_ : ℕ) (fs : Fields) (other : Dict String → TokenReply)
      → ((form : Dict String) → post_token (post form) ≡ fields_of fs)
      → get_default "expires_in" (num 60) fs ≡ num seconds
      → let (token, cache) = get_m2m render read_float oauth post before now empty_cache in
        (later < now + (seconds * 1000 - expiry_skew)
          → get_m2m render read_float oauth other later after_ cache ≡ (token, cache))
        × (now + (seconds * 1000 - expiry_skew) ≤ later
            → (get_m2m render read_float oauth (λ form. http_error) later after_ cache).0
              ≡ token_error)
  unfolding get_m2m by_cache ask fetched keep_token ttl_of post_token
  get_m2m-kept before now seconds later after_ fs other answer term =
      rw answer (rw term (λ h. ground arith, λ h. ground arith))
