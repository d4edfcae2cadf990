-- ===== src/Onboarding/Surface/Scoped.antt =====
-- Whom a guide is for, and what it puts into the ledger.
use kb_concierge.Prelude.{
  String, ◌≡◌, sym, ◌∙◌, Bool, true, false, Option-cases, ◌⊎◌, inl, inr, Option, none, some, List,
  eq_iff, Dict, lookup, arith,
}
use kb_concierge.Reasoning.Calls.{ToolContext}
use kb_concierge.Sessions.Model.{AgentSession}
use kb_concierge.Sessions.Access.{Principal}
use kb_concierge.Handoff.{Answer, done, refused}
use kb_concierge.Ledger.{OutcomeRecord}
use kb_concierge.Onboarding.{OnboardingGuide, is_complete}
use kb_concierge.Onboarding.Platform.{StatusRequest, status_request, read}
use kb_concierge.Onboarding.Surface.{Guided, status_of, guide_context, record_outcome}

abbrev or_this : OnboardingGuide → Option OnboardingGuide → OnboardingGuide
or_this x none = x
or_this x (some y) = y

module _ (g : Guided) where
  request-user :
      (context : ToolContext) (role : String) (r : StatusRequest)
      → status_request g.service_key role context ≡ some r
      → lookup "keycloak_sub" r.params ≡ context.on_behalf_of
  unfolding status_request
  request-user context role r h = elim (Option-cases context.on_behalf_of) [
    | inl e ↦ ground (arith, e)
    | inr e ↦ ground (arith, e.1)
  ]

  request-email :
      (context : ToolContext) (role e : String) (r : StatusRequest)
      → status_request g.service_key role context ≡ some r
      → lookup "email" r.params ≡ some e
      → context.email ≡ some e
  unfolding status_request
  request-email context role e r h given = elim (Option-cases context.on_behalf_of) [
    | inl f ↦ ground (arith, f)
    | inr f ↦ ground (arith, f.1)
  ]

  context-email :
      (p : Principal) (session : AgentSession) (e : String)
      → (guide_context g p session).email ≡ some e
      → (session.user_id ≡ some p.user_id) × (p.email ≡ some e)
  unfolding guide_context
  context-email p session e h = elim (Option-cases session.user_id) [
    | inl f ↦ ground (arith, f)
    | inr f ↦ ground (arith, f.1, eq_iff f.0 p.user_id)
  ]

  -- What is asked of the platform for a guide is about the user of the session, and has an address
  -- only where the caller is that user, whose address it is.
  pub status_request-own :
      (p : Principal) (session : AgentSession) (role : String) (r : StatusRequest)
      → status_request g.service_key role (guide_context g p session) ≡ some r
      → (lookup "keycloak_sub" r.params ≡ session.user_id)
        × ((lookup "email" r.params ≡ none)
            ⊎ ((session.user_id ≡ some p.user_id) × (lookup "email" r.params ≡ p.email)))
  unfolding guide_context
  status_request-own p session role r h = (
    request-user (guide_context g p session) role r h,
    elim (Option-cases (lookup "email" r.params)) [
      | inl e ↦ inl e
      | inr e ↦
          let own =
            context-email p session e.0
              (request-email (guide_context g p session) role e.0 r h e.1) in
          inr (own.0, e.1 ∙ sym own.1)
    ],
  )

  abbrev pub got : Answer (Option OnboardingGuide) → Option OnboardingGuide
  got (refused r) = none
  got (done x) = x

  -- A guide without a status claims no step and leaves the ledger; one with a status is complete
  -- when all steps are done, and the ledger may take the place of the user of the session.
  abbrev pub Honest :
      Principal
      → AgentSession
      → String
      → OnboardingGuide
      → List OutcomeRecord
      → List OutcomeRecord
      → Type 0
  Honest p session role x ledger after =
      ((read g.render g.service_key g.platform role (guide_context g p session) ≡ none)
        × (x.known ≡ false)
        × (x.complete ≡ false)
        × (x.step_id ≡ none)
        × (after ≡ ledger))
      ⊎ ((flags : Dict Bool) × (read g.render g.service_key g.platform role
              (guide_context g p session)
            ≡ some flags)
          × (x.known ≡ true)
          × (x.complete ≡ is_complete (g.steps_for role) (status_of flags))
          × ((after ≡ ledger)
              ⊎ ((user : String) × (session.user_id ≡ some user)
                  × (after ≡ record_outcome g role user (status_of flags) ledger))))
