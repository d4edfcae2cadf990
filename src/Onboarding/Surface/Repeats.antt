-- ===== src/Onboarding/Surface/Repeats.antt =====
-- The guide of a path that is complete, asked for again.
use kb_concierge.Prelude.{
  ◌+◌, String, ◌≡◌, refl, true, none, some, List, [], ◌∷◌, ◌++◌, length, arith,
}
use kb_concierge.Ledger.{
  settled, completed, OutcomeRecord, get_open, open_for, record_completion, change_or_add,
  completed_new, Completion,
}
use kb_concierge.Onboarding.{
  OnboardingOutcome, completed_step_ids, OnboardingStep, Status, is_complete, outcome_from_status,
}
use kb_concierge.Onboarding.Surface.{Guided, record_outcome, entered_by, entered}

abbrev finished : List OnboardingStep → Status → OnboardingOutcome
finished steps status = record {
  complete = true;
  step_id = none;
  step_seq = length steps;
  done = length (completed_step_ids steps status);
}

outcome-finished :
    (steps : List OnboardingStep) (status : Status)
    → is_complete steps status ≡ true
    → outcome_from_status steps status ≡ some (finished steps status)
unfolding outcome_from_status is_complete
outcome-finished [] status h = cc
outcome-finished (s ∷ ss) status h = rw h refl

module _ (g : Guided) where
  completed_new-length :
      (kind key : String) (c : Completion) (rs : List OutcomeRecord)
      → get_open kind key rs ≡ none
      → (length (rs ++ completed_new kind key c ∷ []) ≡ length rs + 1)
        × (get_open kind key (rs ++ completed_new kind key c ∷ []) ≡ none)
  unfolding get_open completed_new open_for
  completed_new-length kind key c [] h = (refl, ground arith)
  completed_new-length kind key c (r ∷ rs) h =
      let rest = completed_new-length kind key c rs in
      (ground (arith, rest, h), ground (arith, rest, h))

  -- A record of a subject that says that the path was completed.
  abbrev pub IsCompletion : String → OutcomeRecord → Type 0
  IsCompletion key r =
      (r.kind ≡ "ONBOARDING")
      × (r.subject_key ≡ key)
      × (r.state ≡ settled)
      × (r.result ≡ some completed)

  -- Where no record is open for a subject, the guide of a complete path adds a completion of that
  -- subject to the ledger, and leaves none open: so the next guide adds one more.
  pub record_outcome-repeats :
      (role subject : String) (status : Status) (rs : List OutcomeRecord)
      → (g.outcome_ledger_enabled ≡ true) × (g.stored ≡ true)
      → is_complete (g.steps_for role) status ≡ true
      → get_open "ONBOARDING" (g.pseudonym subject) rs ≡ none
      → ((r : OutcomeRecord) × IsCompletion (g.pseudonym subject) r
          × (record_outcome g role subject status rs ≡ rs ++ r ∷ []))
        × (get_open "ONBOARDING" (g.pseudonym subject) (record_outcome g role subject status rs)
            ≡ none)
  unfolding record_outcome entered_by entered record_completion change_or_add outcome_from_status
      completed_new
  record_outcome-repeats role subject status rs on complete h =
      rw (on.0, outcome-finished (g.steps_for role) status complete, on.1, h)
        (
          (_, (refl, refl, refl, refl), refl),
          (completed_new-length "ONBOARDING" (g.pseudonym subject)
              (record {
                now = g.now;
                step = none;
                step_seq = some (finished (g.steps_for role) status).step_seq;
                role = some role;
              })
              rs h).1,
        )
