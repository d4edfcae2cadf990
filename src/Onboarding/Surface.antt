-- ===== src/Onboarding/Surface.antt =====
-- backend/src/api/onboarding/recorder.py and `SessionService.onboarding_guide` of
-- sessions/service.py: the guide of a user, and its place in the ledger of outcomes.
pub mod Scoped
pub mod Repeats
use kb_concierge.Prelude.{
  ℕ, String, Bool, true, false, ◌&&◌, Option, none, some, List, [], ◌∷◌, if◌then◌else◌, str_eq,
  non_empty, Dict, Json,
}
use kb_concierge.Reasoning.Calls.{ToolContext}
use kb_concierge.Sessions.Model.{AgentSession}
use kb_concierge.Sessions.Access.{Principal, can_access}
use kb_concierge.Handoff.{Answer, done, refused, not_found}
use kb_concierge.Ledger.{OutcomeRecord, record_progress, record_completion}
use kb_concierge.Onboarding.{
  OnboardingStep, Status, OnboardingGuide, build_guide, OnboardingOutcome, outcome_from_status,
}
use kb_concierge.Onboarding.Platform.{Platform, is_role, flag, read}

-- The settings, the loaded steps of a role, and what stands outside: the platform, the
-- pseudonym of a subject (for a text that is not blank), how a number is printed, the clock, and whether the database takes the
-- change.
pub record Guided : Type 0 where
  pub onboarding_enabled : Bool
  pub outcome_ledger_enabled : Bool
  pub settle_after : ℕ
  pub service_key : String
  pub steps_for : String → List OnboardingStep
  pub platform : Platform
  pub render : Json → String
  pub pseudonym : String → String
  pub show : ℕ → String
  pub now : ℕ
  pub stored : Bool

abbrev pub status_of : Dict Bool → Status
status_of flags k = flag k flags

abbrev pub or_empty : Option String → String
or_empty none = ""
or_empty (some s) = s

module _ (g : Guided) where
  -- The change that an outcome makes.
  unfoldable pub entered :
      String → String → OnboardingOutcome → List OutcomeRecord → List OutcomeRecord
  entered role key outcome ledger =
      if outcome.complete
      then record_completion "ONBOARDING" key
          (record { now = g.now; step = none; step_seq = some outcome.step_seq; role = some role })
          ledger
      else record_progress "ONBOARDING" key
          (record {
            step = or_empty outcome.step_id;
            step_seq = outcome.step_seq;
            now = g.now;
            window = g.settle_after;
            role = some role;
            meta = ("done", g.show outcome.done) ∷ [];
          })
          ledger

  entered_by : String → String → Option OnboardingOutcome → List OutcomeRecord → List OutcomeRecord
  entered_by role subject none ledger = ledger
  entered_by role subject (some outcome) ledger =
      if g.stored then entered role (g.pseudonym subject) outcome ledger else ledger

  -- `OnboardingOutcomeRecorder.record`; a failure of the database is logged only.
  unfoldable pub record_outcome : String → String → Status → List OutcomeRecord → List OutcomeRecord
  unfolding entered_by
  record_outcome role subject status ledger =
      if g.outcome_ledger_enabled
      then entered_by role subject (outcome_from_status (g.steps_for role) status) ledger
      else ledger

  -- The context of the read: the address of the caller goes with it only where the caller is the
  -- user of the session.
  unfoldable pub guide_context : Principal → AgentSession → ToolContext
  guide_context p session = record {
    on_behalf_of = session.user_id;
    correlation_id = session.correlation_id;
    session_id = some session.id;
    email = elim session.user_id [
      | none ↦ none
      | some user ↦ if str_eq user p.user_id then p.email else none
    ];
  }

  noted : String → Option String → Option (Dict Bool) → List OutcomeRecord → List OutcomeRecord
  noted role (some user) (some flags) ledger =
      if non_empty user then record_outcome role user (status_of flags) ledger else ledger
  noted role _ _ ledger = ledger

  as_status : Option (Dict Bool) → Option Status
  as_status none = none
  as_status (some flags) = some (status_of flags)

  -- The guide and the ledger, for the status that was read.
  shown :
      String
      → AgentSession
      → Option (Dict Bool)
      → List OutcomeRecord
      → Answer (Option OnboardingGuide) × List OutcomeRecord
  unfolding noted as_status
  shown role session status ledger = (
    done (build_guide role (g.steps_for role) (as_status status)),
    noted role session.user_id status ledger,
  )

  guided :
      Principal
      → String
      → Option AgentSession
      → List OutcomeRecord
      → Answer (Option OnboardingGuide) × List OutcomeRecord
  unfolding shown
  guided p role none ledger = (refused not_found, ledger)
  guided p role (some session) ledger =
      if can_access p session
      then if is_role role
        then shown role session
            (read g.render g.service_key g.platform role (guide_context p session)) ledger
        else (done none, ledger)
      else (refused not_found, ledger)

  -- `SessionService.onboarding_guide`, with the session that the table has.
  unfoldable pub onboarding_guide :
      Principal
      → Option AgentSession
      → String
      → List OutcomeRecord
      → Answer (Option OnboardingGuide) × List OutcomeRecord
  unfolding guided
  onboarding_guide p session role ledger =
      if g.onboarding_enabled then guided p role session ledger else (done none, ledger)
