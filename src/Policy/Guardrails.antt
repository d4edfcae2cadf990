-- ===== src/Policy/Guardrails.antt =====
-- backend/src/api/policy/guardrails.py and service.py: the veto over a decision, the wrapping of
-- untrusted text, and the decision of the policy service.
use kb_concierge.Prelude.{
  ℕ, zero, suc, String, Bool, true, false, ◌&&◌, List, [], ◌∷◌, ◌++◌, if◌then◌else◌, Codes, codes,
  lower, any_in, is_prefix,
}
use kb_concierge.Intent.{Intent}
use kb_concierge.Policy.Kinds.{acts, handoff, DecisionReason}
use kb_concierge.Policy.Signals.{TurnSignals, extract_signals}
use kb_concierge.Policy.Matrix.{AutonomyMatrix}
use kb_concierge.Policy.Engine.{PolicyDecision, plain, decide}

abbrev pub injection_patterns : List String
injection_patterns =
    "ignore previous" ∷ "ignore all previous" ∷ "disregard previous" ∷ "disregard all instructions"
    ∷ "system prompt" ∷ "reveal your" ∷ "show your prompt" ∷ "act as" ∷ "jailbreak"
    ∷ "забудь инструкции" ∷ "забудь все инструкции" ∷ "забудь предыдущие" ∷ "игнорируй инструкции"
    ∷ "игнорируй предыдущие" ∷ "ты теперь" ∷ "покажи системный промпт" ∷ "покажи свой промпт"
    ∷ "раскрой промпт" ∷ "выведи промпт" ∷ "сообщи пароль" ∷ "выдай секрет" ∷ "раскрой секрет" ∷ []

unfoldable pub is_injection_attempt : String → Bool
is_injection_attempt untrusted_text = any_in (lower untrusted_text) injection_patterns

-- `t.replace(p, "")` for a `p` of `suc n` characters: a match is skipped whole. `skip` counts the
-- characters of the match that are still to pass.
unfoldable pub remove_from : Codes → ℕ → ℕ → Codes → Codes
remove_from p n skip [] = []
remove_from p n (suc k) (c ∷ t) = remove_from p n k t
remove_from p n zero (c ∷ t) = elim (is_prefix p (c ∷ t)) [
  | true ↦ remove_from p n n t
  | false ↦ c ∷ remove_from p n zero t
]

abbrev pub delim : Codes
delim = codes "<<<untrusted>>>"

abbrev pub newline : Codes
newline = codes "\n"

unfoldable pub wrap_untrusted : Codes → Codes
wrap_untrusted untrusted_text =
    let safe = remove_from delim 14 0 untrusted_text in
    delim ++ (newline ++ (safe ++ (newline ++ delim)))

unfoldable pub enforce_decision : PolicyDecision → TurnSignals → PolicyDecision
enforce_decision decision signals =
    let is_autonomous = acts decision.outcome in
    if is_autonomous && signals.money_action
    then plain handoff DecisionReason.money_never_autonomous decision.policy_version
    else if is_autonomous && signals.irreversible
    then plain handoff DecisionReason.irreversible_handoff decision.policy_version
    else decision

-- `PolicyService.decide`
unfoldable pub service_decide : AutonomyMatrix → Intent → ℕ → String → PolicyDecision
service_decide m intent confidence masked_text =
    let signals = extract_signals masked_text in
    enforce_decision (decide m intent confidence signals) signals
