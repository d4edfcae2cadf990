-- ===== src/Tests/Guides.antt =====
-- Runs of the onboarding guide of a user.
use kb_concierge.Prelude.{
  ◌++◌, ◌⊎◌, ℕ, String, ◌≡◌, refl, true, Option, some, none, [], ◌∷◌, lookup, Json, str, bool, arr,
  obj, nil, cons, Fields, end, field,
}
use kb_concierge.Sessions.Access.{Principal}
use kb_concierge.Ledger.{OutcomeRecord, get_open}
use kb_concierge.Onboarding.{OnboardingStep, OnboardingGuide, is_complete, all_done, is_done}
use kb_concierge.Onboarding.Platform.{StatusRequest, status_request}
use kb_concierge.Onboarding.Surface.{Guided, record_outcome, guide_context}
use kb_concierge.Onboarding.Surface.Scoped.{status_request-own}
use kb_concierge.Onboarding.Surface.Repeats.{IsCompletion, record_outcome-repeats}
use kb_concierge.Tests.Sample

abbrev render : Json → String
render (str s) = s
render _ = "1"

abbrev property_step : OnboardingStep
property_step = record {
  step_id = "O3";
  role = "owner";
  target_action = "object";
  screen_ref = "/object";
  requires = [];
  done_flag = "object_added";
  blocker_reason = none;
  title = "Объект";
  why = "";
}

abbrev added : Fields
added =
    field "steps"
      (arr (cons (obj (field "key" (str "property") (field "done" (bool true) end))) nil)) end

abbrev platform : StatusRequest → Option (ℕ × Option Json)
platform r = some (200, some (obj added))

abbrev guided : Guided
guided = record {
  onboarding_enabled = true;
  outcome_ledger_enabled = true;
  settle_after = 1000;
  service_key = "k";
  steps_for = λ role. property_step ∷ [];
  platform = platform;
  render = render;
  pseudonym = λ s. s;
  show = λ n. "1";
  now = 5;
  stored = true;
}

abbrev finale_guide : OnboardingGuide
finale_guide = record {
  role = "owner";
  known = true;
  complete = true;
  title = "Готово! Объект можно листить";
  why = "Верификация пройдена — размещайте объект.";
  step_id = none;
  screen_ref = none;
  done = 1;
  total = 1;
  blocker_reason = none;
  path = ("O3", "Объект") ∷ [];
}

abbrev user : Principal
user = record Sample.user { email = some "a@b.c" }

abbrev request : StatusRequest
request = record {
  service_key = "k";
  params = ("keycloak_sub", "u1") ∷ ("role", "owner") ∷ ("email", "a@b.c") ∷ [];
}

status_request-own_example :
    (lookup "keycloak_sub" request.params ≡ some "u1")
    × ((lookup "email" request.params ≡ none)
        ⊎ ((some "u1" ≡ some user.user_id) × (lookup "email" request.params ≡ user.email)))
unfolding status_request guide_context
status_request-own_example = status_request-own guided user Sample.session "owner" request refl

record_outcome-repeats_example :
    ((r : OutcomeRecord) × IsCompletion guided "u1" r
      × (record_outcome guided "owner" "u1" (λ f. true) [] ≡ [] ++ r ∷ []))
    × (get_open "ONBOARDING" "u1" (record_outcome guided "owner" "u1" (λ f. true) []) ≡ none)
unfolding is_complete all_done is_done get_open
record_outcome-repeats_example =
    record_outcome-repeats guided "owner" "u1" (λ f. true) [] (refl, refl) refl refl
