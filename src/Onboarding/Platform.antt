-- ===== src/Onboarding/Platform.antt =====
-- backend/src/api/onboarding/platform_status.py: the status of a user's steps, read from the
-- platform. What the platform gives for a request is a parameter.
use kb_concierge.Prelude.{
  ℕ, String, Bool, true, false, ◌&&◌, ◌||◌, Option, none, some, [], ◌∷◌, if◌then◌else◌, ◌==◌,
  str_eq, non_empty, Dict, lookup, insert, Json, null, obj, arr, Items, nil, cons, get_field,
  get_default, truth,
}
use kb_concierge.Reasoning.Calls.{ToolContext}

-- A request: the key of the service, and the parameters of the query.
pub record StatusRequest : Type 0 where
  pub service_key : String
  pub params : Dict String

-- The status code and the JSON of the response, or `none` where the request or the reading raises.
abbrev pub Platform : Type 0
Platform = StatusRequest → Option (ℕ × Option Json)

abbrev pub is_role : String → Bool
is_role role = str_eq role "owner" || str_eq role "tenant"

-- `d.get(key, False)`
unfoldable pub flag : String → Dict Bool → Bool
flag k d = elim (lookup k d) [ none ↦ false | some b ↦ b ]

abbrev pub with_email : Option String → Dict String
with_email none = []
with_email (some e) = if non_empty e then ("email", e) ∷ [] else []

-- What `read` asks the platform, when it asks.
unfoldable pub status_request : String → String → ToolContext → Option StatusRequest
status_request service_key role context = elim context.on_behalf_of [
  | none ↦ none
  | some user ↦
      if is_role role && non_empty user
      then some (record {
        service_key = service_key;
        params = ("keycloak_sub", user) ∷ ("role", role) ∷ with_email context.email;
      })
      else none
]

module _ (render : Json → String) where
  put_step : Json → Dict Bool → Dict Bool
  put_step (obj s) done =
      if truth (get_default "key" null s)
      then insert (render (get_default "key" null s)) (truth (get_default "done" null s)) done
      else done
  put_step _ done = done

  -- The comprehension of `_map`: of two steps with one key the later counts.
  unfoldable pub put_steps : Items → Dict Bool → Dict Bool
  unfolding put_step
  put_steps nil done = done
  put_steps (cons x xs) done = put_steps xs (put_step x done)

  unfoldable pub flags_of : String → Dict Bool → Dict Bool
  flags_of role done =
      if str_eq role "owner"
      then ("account", true)
        ∷ ("email_verified", flag "email" done)
        ∷ ("kyc_passed", flag "kyc" done)
        ∷ ("tax_status_set", flag "requisites" done)
        ∷ ("object_added", flag "property" done)
        ∷ ("egrn_verified", flag "egrn" done)
        ∷ ("payout_saved", flag "payout" done)
        ∷ []
      else ("account", true)
        ∷ ("email_verified", flag "email" done)
        ∷ ("profile_complete", flag "profile" done && flag "phone" done)
        ∷ ("kyc_passed", flag "kyc" done)
        ∷ ("solvency_confirmed", flag "income" done)
        ∷ []

  of_steps : String → Option Json → Option (Dict Bool)
  of_steps role (some (arr steps)) = some (flags_of role (put_steps steps []))
  of_steps role _ = none

  -- `_map`
  unfoldable pub map_status : String → Json → Option (Dict Bool)
  unfolding of_steps
  map_status role (obj fs) = of_steps role (get_field "steps" fs)
  map_status role _ = none

  of_json : String → Option Json → Option (Dict Bool)
  of_json role none = none
  of_json role (some payload) = map_status role payload

  of_response : String → Option (ℕ × Option Json) → Option (Dict Bool)
  unfolding of_json
  of_response role none = none
  of_response role (some (code, body)) = if code == 200 then of_json role body else none

  of_request : String → Platform → Option StatusRequest → Option (Dict Bool)
  unfolding of_response
  of_request role platform none = none
  of_request role platform (some r) = of_response role (platform r)

  -- `PlatformStatusReader.read`
  unfoldable pub read : String → Platform → String → ToolContext → Option (Dict Bool)
  unfolding of_request
  read service_key platform role context =
      of_request role platform (status_request service_key role context)
