-- ===== src/Policy/Safety.antt =====
-- What every decision of the policy guarantees, whatever matrix is loaded.
use kb_concierge.Prelude.{
  ℕ, ◌≤◌, String, ◌≡◌, refl, ◌⊎◌, inl, inr, Bool, true, false, ◌&&◌, ◌||◌, not, none, List, [],
  ◌++◌, arith, ltb, if◌then◌else◌, has_str, Codes, codes, lower, any_in,
}
use kb_concierge.Prelude.Search.{Among, any_in-Among}
use kb_concierge.Intent.{Intent, same}
use kb_concierge.Policy.Kinds.{tool_call, clarify, handoff, acts}
use kb_concierge.Policy.Signals.{
  TurnSignals, extract_signals, money_action_needles, claim_needles, irreversible_needles,
}
use kb_concierge.Policy.Matrix.{AutonomyMatrix, built_in, rule_for, default_matrix}
use kb_concierge.Policy.Engine.{PolicyDecision, decide}
use kb_concierge.Policy.Guardrails.{enforce_decision, service_decide}

-- A signal that stops the agent on this intent.
abbrev pub stops : Intent → TurnSignals → Bool
stops i s =
    s.money_action
    || (s.money_topic && not (same i Intent.pricing_query))
    || s.claim_or_dispute
    || s.irreversible

decide-stops :
    (m : AutonomyMatrix) (i : Intent) (c : ℕ) (s : TurnSignals)
    → stops i s ≡ true
    → ((decide m i c s).outcome ≡ handoff) × ((decide m i c s).allowed_tools ≡ [])
unfolding decide
decide-stops m i c s h = ground arith

-- The veto changes no decision that the engine itself makes.
pub enforce_decision-decide :
    (m : AutonomyMatrix) (i : Intent) (c : ℕ) (s : TurnSignals)
    → enforce_decision (decide m i c s) s ≡ decide m i c s
unfolding enforce_decision decide
enforce_decision-decide m i c s = ground arith

-- Over any decision at all the veto leaves no autonomous outcome under a money action or an
-- irreversible one, and it changes no outcome that is not autonomous.
pub enforce_decision_safe :
    (d : PolicyDecision) (s : TurnSignals)
    → (acts (enforce_decision d s).outcome ≡ true
        → (s.money_action ≡ false) × (s.irreversible ≡ false) × (enforce_decision d s ≡ d))
      × (acts d.outcome ≡ false → enforce_decision d s ≡ d)
unfolding enforce_decision
enforce_decision_safe d s = (λ h. ground arith, λ h. ground arith)

-- A text with a stop signal is handed to a human with no tools, under every matrix and at every
-- confidence.
pub service_decide-stops :
    (m : AutonomyMatrix) (i : Intent) (c : ℕ) (text : String)
    → stops i (extract_signals text) ≡ true
    → ((service_decide m i c text).outcome ≡ handoff)
      × ((service_decide m i c text).allowed_tools ≡ [])
unfolding service_decide
service_decide-stops m i c text h =
    rw (enforce_decision-decide m i c (extract_signals text))
      (decide-stops m i c (extract_signals text) h)

listed_found :
    (needles : List String) (text n : String) (before after : Codes)
    → Among n needles
    → lower text ≡ before ++ (codes n ++ after)
    → any_in (lower text) needles ≡ true
listed_found needles text n before after listed e =
    rw e (any_in-Among n needles before after listed)

keyword-stops :
    (i : Intent) (text n : String) (before after : Codes)
    → Among n money_action_needles ⊎ Among n claim_needles ⊎ Among n irreversible_needles
    → lower text ≡ before ++ (codes n ++ after)
    → stops i (extract_signals text) ≡ true
unfolding extract_signals
keyword-stops i text n before after (inl k) e =
    ground (arith, listed_found money_action_needles text n before after k e)
keyword-stops i text n before after (inr (inl k)) e =
    ground (arith, listed_found claim_needles text n before after k e)
keyword-stops i text n before after (inr (inr k)) e =
    ground (arith, listed_found irreversible_needles text n before after k e)

-- A keyword of the money, claim or irreversible lists that stands anywhere in the lowered text
-- leads to a handoff.
pub keyword-handoff :
    (m : AutonomyMatrix) (i : Intent) (c : ℕ) (text n : String) (before after : Codes)
    → Among n money_action_needles ⊎ Among n claim_needles ⊎ Among n irreversible_needles
    → lower text ≡ before ++ (codes n ++ after)
    → (service_decide m i c text).outcome ≡ handoff
keyword-handoff m i c text n before after listed e =
    (service_decide-stops m i c text (keyword-stops i text n before after listed e)).0

-- The agent acts by itself only on small talk, on what is out of scope, under a rule without a
-- threshold, or with enough confidence.
pub decide-acts_confident :
    (m : AutonomyMatrix) (i : Intent) (c : ℕ) (s : TurnSignals)
    → acts (decide m i c s).outcome ≡ true
    → same i Intent.small_talk ≡ false
    → same i Intent.out_of_scope ≡ false
    → (rule_for m i).gated_by_confidence ≡ true
    → m.confidence_threshold ≤ c
unfolding decide
decide-acts_confident m i c s h a b g = ground arith

-- An intent without a rule of its own, on a text with no signal, is escalated only from the
-- threshold upwards; below it the user is asked again.
pub decide-no_rule :
    (m : AutonomyMatrix) (i : Intent) (c : ℕ) (s : TurnSignals)
    → m.rules i ≡ none
    → stops i s ≡ false
    → s.sensitive ≡ false
    → same i Intent.non_standard ≡ false
    → same i Intent.small_talk ≡ false
    → same i Intent.out_of_scope ≡ false
    → (decide m i c s).outcome ≡ (if ltb c m.confidence_threshold then clarify else handoff)
unfolding decide rule_for
decide-no_rule m i c s e a b d f g = ground arith

-- Under the built-in matrix a tool runs on a partner request only with the user's confirmation,
-- and without one only on a support request.
pub built_in-tool_call :
    (i : Intent) (c : ℕ) (text : String)
    → (service_decide built_in i c text).outcome ≡ tool_call
    → ((i ≡ Intent.partner_service)
        × ((service_decide built_in i c text).requires_confirmation ≡ true))
      ⊎ (i ≡ Intent.support_issue)
unfolding service_decide enforce_decision decide rule_for default_matrix
built_in-tool_call Intent.partner_service c text h = inl (refl, ground arith)
built_in-tool_call Intent.support_issue c text h = inr refl
built_in-tool_call i c text h = absurd (ground arith)

-- A tool that a decision allows is one that the rule of the intent allows, and a decision with
-- tools takes its action and its need of confirmation from that rule.
pub decide-tools_of_rule :
    (m : AutonomyMatrix) (i : Intent) (c : ℕ) (text t : String)
    → has_str t (service_decide m i c text).allowed_tools ≡ true
    → (has_str t (rule_for m i).allowed_tools ≡ true)
      × ((service_decide m i c text).outcome ≡ (rule_for m i).autonomous)
      × ((service_decide m i c text).requires_confirmation ≡ (rule_for m i).requires_confirmation)
unfolding service_decide enforce_decision decide has_str
decide-tools_of_rule m i c text t h = ground arith
