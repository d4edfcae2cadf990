-- ===== src/Auth/Verified.antt =====
-- What a principal is known by.
use kb_concierge.Prelude.{
  Option-cases, inl, inr, ◌⊎◌, ℕ, String, ◌≡◌, refl, sym, ◌∙◌, Bool, true, false, Option, none,
  some, List, lookup, ap, arith, Json, bool, num, str, arr, obj, Fields, get_field, null,
}
use kb_concierge.Sessions.Access.{Principal}
use kb_concierge.Auth.{
  Fetched, claims_to_principal, principal_of, email_of, is_true, parse_act_sub, Outside, accepted,
  Jwks, Found, key_of, unknown_key, broken_key, fetch_failed, subject_of, refreshed, looked_up,
  verify, by_header, by_kid, of_key, of_claims, of_principal, get_current_principal, with_bound,
  get_key,
}

is_true-eq : (j : Option Json) → is_true j ≡ true → j ≡ some (bool true)
unfolding is_true
is_true-eq none h = cc
is_true-eq (some (bool true)) h = refl
is_true-eq (some (bool false)) h = cc
is_true-eq (some null) h = cc
is_true-eq (some (num n)) h = cc
is_true-eq (some (str s)) h = cc
is_true-eq (some (arr xs)) h = cc
is_true-eq (some (obj fs)) h = cc

abbrev or_this : Principal → Option Principal → Principal
or_this p none = p
or_this p (some q) = q

module _ (render : Json → String) (parse_uuid : String → Option String)
    (split : String → List String) where
  email_of-verified :
      (claims : Fields) (e : String)
      → email_of render parse_uuid split claims ≡ some e
      → get_field "email_verified" claims ≡ some (bool true)
  unfolding email_of is_true
  email_of-verified claims e h = ground (arith, is_true-eq (get_field "email_verified" claims))

  principal_of-known :
      (claims : Fields) (subject : Option String) (p : Principal)
      → principal_of render parse_uuid split claims subject ≡ some p
      → (subject ≡ some p.user_id)
        × (p.on_behalf_of ≡ parse_act_sub render parse_uuid split (get_field "kbc_act_sub" claims))
        × (p.email ≡ email_of render parse_uuid split claims)
  unfolding principal_of
  principal_of-known claims none p h = cc
  principal_of-known claims (some user_id) p h =
      let same = ap (or_this p) h in
      (
        ap (λ q. some q.user_id) same,
        sym (ap (λ q. q.on_behalf_of) same),
        sym (ap (λ q. q.email) same),
      )

  -- The user that `sub` names, on behalf of the one that `kbc_act_sub` names or of nobody, with an
  -- address only when the token says that it is verified.
  abbrev pub Named : Fields → Principal → Type 0
  Named claims p =
      (subject_of render parse_uuid split (get_field "sub" claims) ≡ some p.user_id)
      × (p.on_behalf_of ≡ parse_act_sub render parse_uuid split (get_field "kbc_act_sub" claims))
      × ((p.email ≡ none) ⊎ (get_field "email_verified" claims ≡ some (bool true)))

  claims_to_principal-Named :
      (claims : Fields) (p : Principal)
      → claims_to_principal render parse_uuid split claims ≡ some p
      → Named claims p
  unfolding claims_to_principal
  claims_to_principal-Named claims p h =
      let known = principal_of-known claims _ p h in
      (
        known.0,
        known.1,
        elim (Option-cases p.email) [
          | inl e ↦ inl e
          | inr e ↦ inr (email_of-verified claims e.0 (sym known.2 ∙ e.1))
        ],
      )

module _ (o : Outside) where
  of_principal-accepted :
      (x : Option Principal) (p : Principal) → of_principal o x ≡ accepted p → x ≡ some p
  unfolding of_principal
  of_principal-accepted none p h = cc
  of_principal-accepted (some q) p h = cc

  of_claims-accepted :
      (c : Option Fields) (p : Principal)
      → of_claims o c ≡ accepted p
      → (claims : Fields) × (c ≡ some claims) × Named o.render o.parse_uuid o.split claims p
  unfolding of_claims
  of_claims-accepted none p h = cc
  of_claims-accepted (some claims) p h = (
    claims,
    refl,
    claims_to_principal-Named o.render o.parse_uuid o.split claims p (of_principal-accepted _ p h),
  )

  of_key-accepted :
      (token : String) (found : Found) (p : Principal)
      → of_key o token found ≡ accepted p
      → (key : String) × (claims : Fields) × (found ≡ key_of key)
        × (o.decode token key ≡ some claims)
        × Named o.render o.parse_uuid o.split claims p
  unfolding of_key
  of_key-accepted token unknown_key p h = cc
  of_key-accepted token broken_key p h = cc
  of_key-accepted token fetch_failed p h = cc
  of_key-accepted token (key_of key) p h =
      let held = of_claims-accepted (o.decode token key) p h in (key, held.0, refl, held.1, held.2)

  -- The key and the claims behind an accepted token with this `kid`.
  abbrev pub Backed : String → String → Jwks → Principal → Type 0
  Backed token kid cache p =
      (key : String) × (claims : Fields) × ((get_key o.ttl_seconds o.before o.after_ o.fetched kid
          cache).0
        ≡ key_of key)
      × (o.decode token key ≡ some claims)
      × Named o.render o.parse_uuid o.split claims p

  by_kid-Backed :
      (token kid : String) (cache : Jwks) (p : Principal)
      → (by_kid o token kid cache).0 ≡ accepted p
      → Backed token kid cache p
  unfolding by_kid
  by_kid-Backed token kid cache p h = of_key-accepted token _ p h

  by_header-kid :
      (token kid : String) (cache : Jwks) (p : Principal)
      → (by_header o token (some (some kid)) cache).0 ≡ accepted p
      → (by_kid o token kid cache).0 ≡ accepted p
  unfolding by_header
  by_header-kid token kid cache p h = ground arith

  by_header-Backed :
      (token : String) (header : Option (Option String)) (cache : Jwks) (p : Principal)
      → (by_header o token header cache).0 ≡ accepted p
      → (kid : String) × (header ≡ some (some kid)) × Backed token kid cache p
  unfolding by_header
  by_header-Backed token none cache p h = cc
  by_header-Backed token (some none) cache p h = cc
  by_header-Backed token (some (some kid)) cache p h =
      (kid, refl, by_kid-Backed token kid cache p (by_header-kid token kid cache p h))

  -- A request is accepted only when tokens can be verified, a token was sent, and its claims were
  -- verified under the key that the cache or a fetch gives for its `kid`. Its principal is the user
  -- that `sub` names, acts on behalf of the one that `kbc_act_sub` names or of nobody, and has an
  -- address only when the claims say that the address is verified.
  pub get_current_principal-Backed :
      (configured : Bool) (credentials : Option String) (cache : Jwks) (p : Principal)
      → (get_current_principal o configured credentials cache).0 ≡ accepted p
      → (configured ≡ true)
        × ((token : String) × (credentials ≡ some token)
            × ((kid : String) × (o.kid_of token ≡ some (some kid)) × Backed token kid cache p))
  unfolding get_current_principal with_bound verify
  get_current_principal-Backed false credentials cache p h = cc
  get_current_principal-Backed true none cache p h = cc
  get_current_principal-Backed true (some token) cache p h =
      (refl, (token, refl, by_header-Backed token (o.kid_of token) cache p h))

-- A key that is given stands in the set of keys that the cache has then.
get_key-current :
    (ttl_seconds before after_ : ℕ) (fetched : Fetched) (kid key : String) (cache : Jwks)
    → (get_key ttl_seconds before after_ fetched kid cache).0 ≡ key_of key
    → lookup kid (get_key ttl_seconds before after_ fetched kid cache).1.keys ≡ some key
unfolding get_key refreshed looked_up
get_key-current ttl_seconds before after_ fetched kid key cache h = ground arith
