-- ===== src/Tests/Services.antt =====
-- Runs of the calls of services, the limiter, the ledger, the outbox and the guide.
use kb_concierge.Prelude.{
  List, ℕ, ◌≤◌, ◌≡◌, ◌*◌, ◌+◌, ◌-◌, refl, true, false, none, some, [], ◌∷◌, List, lookup, arith,
  leb, ltb, if◌then◌else◌, str_eq,
}
use kb_concierge.Clients.Breaker.{Breaker, fresh, acquire, opened, record_failure}
use kb_concierge.Clients.Breaker.States.{
  acquired, failed, step, after, acquire-one_probe, acquire-opened,
}
use kb_concierge.Clients.Retry.{
  RetryPolicy, Attempt, gave, retryable, retry_async, attempts_from, continued,
}
use kb_concierge.Clients.Retry.Attempts.{Ends, retry_async-Ends}
use kb_concierge.Clients.Request.{other_error, raised, request, attempt_of}
use kb_concierge.Clients.Request.Stuck.{request-stuck}
use kb_concierge.Clients.Cache.{cache_get, cache_set}
use kb_concierge.Clients.Cache.Expiry.{cache_get-set}
use kb_concierge.RateLimit.{token}
use kb_concierge.RateLimit.Bounded.{passed, Ascends, passed-bounded}
use kb_concierge.Ledger
use kb_concierge.Ledger.{OutcomeRecord, Progress, advanced}
use kb_concierge.Ledger.Single.{
  open_count, IsSingle, progressed, apply_change, apply_change-IsSingle,
}
use kb_concierge.Outbox
use kb_concierge.Outbox.{
  Settings, pending, delivered, claimable, claimed, Delivered, accepted, not_accepted,
  process_outbox_batch,
}
use kb_concierge.Outbox.Delivery.{finished, pass, IsSettled, pass-IsSettled}
use kb_concierge.Onboarding.{
  OnboardingStep, OnboardingGuide, refers_back, next_step, completed_step_ids, all_in, all_done,
  build_guide, next_in, is_done,
}
use kb_concierge.Onboarding.NoDeadEnd.{distinct, next_step-none, build_guide-some, has_id}

acquire-one_probe_example : (acquire 10 (after (failed 1 ∷ acquired 9 ∷ []) (fresh 1 5))).0 ≡ false
unfolding after step acquire record_failure
acquire-one_probe_example = acquire-one_probe 1 5 (failed 1 ∷ acquired 9 ∷ []) 10 (omega arith) refl

abbrev tripped : Breaker
tripped = record (fresh 1 5) { state = opened; failures = 1; opened_at = 1 }

acquire-opened_example : (acquire 9 tripped).0 ≡ leb (1 + 5) 9
acquire-opened_example = acquire-opened tripped 9 refl

abbrev thrice : RetryPolicy
thrice = record { attempts = 3; base_delay = 100; max_delay = 2000 }

abbrev second_time : ℕ → Attempt ℕ
second_time n = if leb n 1 then retryable else gave 200

retry_async-Ends_example : Ends thrice second_time 1 2 (retry_async thrice second_time)
retry_async-Ends_example = retry_async-Ends thrice second_time

request-stuck_example :
    let (outcome, b') = request thrice (λ n. other_error) 9 10 tripped in
    (outcome ≡ raised) × ((now : ℕ) → (acquire now b').0 ≡ false)
unfolding retry_async attempts_from continued attempt_of
request-stuck_example = request-stuck thrice (λ n. other_error) 9 10 tripped refl (omega arith) refl

cache_get-set_example :
    ((cache_get "k" 5000 (cache_set "k" "v" 60 0 [])).0
      ≡ (if ltb 5000 (0 + 60 * 1000) then some "v" else none))
    × (lookup "j" (cache_set "k" "v" 60 0 [])
        ≡ (if str_eq "k" "j" then some (0 + 60 * 1000, "v") else none))
cache_get-set_example = cache_get-set "k" "j" "v" 60 0 5000 []

passed-bounded_example :
    passed 2 10 (2 * token, 0) (1 ∷ 2 ∷ 3 ∷ []) * token ≤ 2 * token + (3 - 0) * 10
unfolding Ascends
passed-bounded_example =
    passed-bounded 2 10 (2 * token) 0 (1 ∷ 2 ∷ 3 ∷ []) 3
      (omega arith, (omega arith, (omega arith, omega arith)))

abbrev first_step : Progress
first_step = record {
  step = "profile";
  step_seq = 1;
  now = 10;
  window = 100;
  role = none;
  meta = [];
}

apply_change-IsSingle_example : IsSingle (apply_change (progressed "ONBOARDING" "u1" first_step) [])
unfolding IsSingle open_count
apply_change-IsSingle_example =
    apply_change-IsSingle (progressed "ONBOARDING" "u1" first_step) [] (λ i k. omega arith)

abbrev opened_record : OutcomeRecord
opened_record = Ledger.opened "ONBOARDING" "u1" first_step

abbrev two_open : List OutcomeRecord
two_open = opened_record ∷ record opened_record { subject_key = "u2"; settle_after = 90 } ∷ []

abbrev settings : Settings
settings = record { visibility_timeout = 60; retry_base = 10; max_attempts = 3 }

abbrev event : Outbox.Event
event = record {
  event_type = "agent.answered";
  status = pending;
  attempts = 0;
  available_at = 0;
  processed_at = none;
  last_error = none;
}

-- The delivery fails; a worker that passes later delivers.
pass-IsSettled_example :
    ((pass settings (finished 5 not_accepted) event).attempts ≡ event.attempts + 1)
    × IsSettled settings not_accepted
        (finished 9 accepted ∷ [])
        (pass settings (finished 5 not_accepted) event)
unfolding claimable
pass-IsSettled_example =
    pass-IsSettled settings 5 not_accepted (finished 9 accepted ∷ []) event refl

abbrev sent_event : Outbox.Event
sent_event = record event { status = delivered }

abbrev object_step : OnboardingStep
object_step = record {
  step_id = "O3";
  role = "owner";
  target_action = "object";
  screen_ref = "/object";
  requires = [];
  done_flag = "object_added";
  blocker_reason = none;
  title = "Объект";
  why = "";
}

abbrev registry_step : OnboardingStep
registry_step = record object_step { step_id = "O4"; requires = "O3" ∷ []; done_flag = "egrn" }

abbrev owner_steps : List OnboardingStep
owner_steps = object_step ∷ registry_step ∷ []

next_step-none_example : all_done owner_steps (λ f. true) ≡ true
unfolding refers_back all_in distinct has_id next_step next_in completed_step_ids is_done
next_step-none_example = next_step-none owner_steps (λ f. true) refl refl refl

build_guide-some_example :
    (g : OnboardingGuide) × (build_guide "owner" owner_steps (some (λ f. false)) ≡ some g)
unfolding refers_back all_in distinct has_id
build_guide-some_example =
    build_guide-some "owner" object_step (registry_step ∷ []) (λ f. false) refl refl
