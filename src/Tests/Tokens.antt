-- ===== src/Tests/Tokens.antt =====
-- Runs of the verification of a token.
use kb_concierge.Prelude.{
  String, ◌≡◌, refl, true, Option, none, some, [], ◌∷◌, Json, str, bool, Fields, end, field,
  get_field, truth,
}
use kb_concierge.Sessions.Access.{Principal, user_kind}
use kb_concierge.Auth.{
  keys_read, Outside, empty_jwks, claims_to_principal, get_key, get_current_principal, verify,
  expired, refreshed, parse_kind, parse_act_sub,
}
use kb_concierge.Auth.Verified.{Backed, get_current_principal-Backed}

abbrev render : Json → String
render (str s) = s
render _ = "1"

abbrev any_id : String → Option String
any_id s = some s

abbrev claims : Fields
claims =
    field "sub" (str "u1") (field "email" (str "a@b.c") (field "email_verified" (bool true) end))

abbrev decode : String → String → Option Fields
decode token key = some claims

abbrev kid_of : String → Option (Option String)
kid_of token = some (some "k1")

abbrev outside : Outside
outside = record {
  ttl_seconds = 60;
  before = 5;
  after_ = 6;
  fetched = keys_read (("k1", "key") ∷ []);
  kid_of = kid_of;
  decode = decode;
  render = render;
  parse_uuid = any_id;
  split = λ s. [];
}

abbrev user : Principal
user = record {
  user_id = "u1";
  kind = user_kind;
  scopes = [];
  on_behalf_of = none;
  email = some "a@b.c";
}

get_current_principal-Backed_example :
    (true ≡ true)
    × ((token : String) × (some "t" ≡ some token)
        × ((kid : String) × (kid_of token ≡ some (some kid))
            × Backed outside token kid empty_jwks user))
unfolding get_current_principal verify get_key expired refreshed claims_to_principal get_field
    parse_kind parse_act_sub truth
get_current_principal-Backed_example =
    get_current_principal-Backed outside true (some "t") empty_jwks user refl
