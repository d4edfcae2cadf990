-- ===== src/Intent/Engine.antt =====
-- `IntentOutcome` and `IntentClassifier` of backend/src/api/intent/engine.py, `LLMIntent` of
-- intent/provider.py and `IntentService` of intent/service.py: rules first, then the model of a
-- provider, then the rules with low confidence. Confidence is in ten-thousandths.
pub mod Rules
use kb_concierge.Prelude.{
  ℕ, String, Bool, true, false, Option, none, some, List, [], ◌∷◌, keep, str_eq, if◌then◌else◌, ltb,
  Codes, lower, Json, Fields, end, field,
}
use kb_concierge.Intent.{Intent}
use kb_concierge.Intent.Scores.{intent_scores, best_of}
use kb_concierge.Intent.Slots.{extract_slots}

pub record IntentOutcome : Type 0 where
  pub intent : Intent
  pub confidence : ℕ
  pub method : String
  pub model : String
  pub version : String
  pub slots : Fields

pub record LlmIntent : Type 0 where
  pub intent : Intent
  pub confidence : ℕ
  pub slots : Fields
  pub model : String
  pub version : String

-- `LLMProvider.classify`: an intent, no intent, or an exception.
pub data Said : Type 0 where
  understood : LlmIntent → Said
  nothing raised : Said

-- `NullLLMProvider`
abbrev pub null_llm_provider : String → Said
null_llm_provider masked = nothing

abbrev pub rules_version : String
rules_version = "1.1"

abbrev pub rules_confidence : ℕ
rules_confidence = 9000

abbrev pub ambiguous_confidence : ℕ
ambiguous_confidence = 4000

-- `d[k] = v`
set_field : String → Json → Fields → Fields
set_field k v end = field k v end
set_field k v (field j w fs) = if str_eq j k then field j v fs else field j w (set_field k v fs)

-- `{**d, **e}`
unfoldable pub merge_fields : Fields → Fields → Fields
unfolding set_field
merge_fields d end = d
merge_fields d (field k v e) = merge_fields (set_field k v d) e

unfoldable pub hit : Intent × ℕ → Bool
hit s = ltb 0 s.1

unfoldable pub by_rules : Intent → ℕ → Fields → IntentOutcome
by_rules intent confidence slots = record {
  intent = intent;
  confidence = confidence;
  method = "rules";
  model = "rules";
  version = rules_version;
  slots = slots;
}

module _ (show : ℕ → String) where
  -- The provider has no answer.
  unfoldable pub without_llm : Codes → List (Intent × ℕ) → IntentOutcome
  without_llm t [] = by_rules Intent.out_of_scope 0 end
  without_llm t (s ∷ matched) =
      let best = (best_of s matched).0 in
      by_rules best ambiguous_confidence (extract_slots show t best)

module _ (show : ℕ → String) (provider : String → Said) where
  unfoldable pub by_llm : Codes → List (Intent × ℕ) → Said → Option IntentOutcome
  by_llm t matched raised = none
  by_llm t matched nothing = some (without_llm show t matched)
  by_llm t matched (understood llm) = some (record {
    intent = llm.intent;
    confidence = llm.confidence;
    method = "llm";
    model = llm.model;
    version = llm.version;
    slots = merge_fields (extract_slots show t llm.intent) llm.slots;
  })

  unfoldable pub classify_by : String → Codes → List (Intent × ℕ) → Option IntentOutcome
  classify_by masked t ((intent, hits) ∷ []) =
      some (by_rules intent rules_confidence (extract_slots show t intent))
  classify_by masked t [] = by_llm t [] (provider masked)
  classify_by masked t (a ∷ b ∷ matched) = by_llm t (a ∷ b ∷ matched) (provider masked)

  -- `IntentClassifier.classify`, with the exception of the provider as `none`, which is what
  -- `IntentService.classify` gives for it.
  unfoldable pub classify : String → Option IntentOutcome
  classify masked = let t = lower masked in classify_by masked t (keep hit (intent_scores t))
