-- ===== src/Policy/Matrix.antt =====
-- backend/src/api/policy/matrix.py: the rule of each intent. Confidences are in 1/10000, so the
-- threshold 0.75 is 7500; the code only compares them.
use kb_concierge.Prelude.{
  ℕ, String, Bool, true, false, Option, none, some, List, [], ◌∷◌, if◌then◌else◌, PyError,
  key_error, value_error, Result, ok, err, ◌>>=◌, Json, Fields, end, field, get_field, get_default,
  truth, tuple_of,
}
use kb_concierge.Prelude.{bool, str, obj, arr, nil}
use kb_concierge.Intent
use kb_concierge.Intent.{Intent}
use kb_concierge.Policy.Kinds.{AgentActionKind, answer, tool_call, handoff, action_kind}

pub record IntentRule : Type 0 where
  pub autonomous : AgentActionKind
  pub allowed_tools : List Json
  pub requires_confirmation : Bool
  pub gated_by_confidence : Bool

-- `dict[Intent, IntentRule]`
abbrev pub Rules : Type 0
Rules = Intent → Option IntentRule

-- `IntentRule(autonomous=k)`
abbrev pub plain_rule : AgentActionKind → IntentRule
plain_rule k = record {
  autonomous = k;
  allowed_tools = [];
  requires_confirmation = false;
  gated_by_confidence = true;
}

-- `EMERGENCY` has no rule.
unfoldable pub default_matrix : Rules
default_matrix Intent.info_qa =
    some (record (plain_rule answer) { allowed_tools = str "kb.search" ∷ [] })
default_matrix Intent.partner_service = some (record (plain_rule tool_call) {
  allowed_tools =
      str "partners.create_request" ∷ str "partners.classify" ∷ str "partners.dispatch" ∷ [];
  requires_confirmation = true;
})
default_matrix Intent.support_issue =
    some (record (plain_rule tool_call) { allowed_tools = str "support.create_ticket" ∷ [] })
default_matrix Intent.status_query = some (record (plain_rule answer) {
  allowed_tools = str "partners.get_status" ∷ str "support.get_status" ∷ [];
  gated_by_confidence = false;
})
default_matrix Intent.pricing_query = some (record (plain_rule answer) {
  allowed_tools = str "pricing.quote" ∷ [];
  gated_by_confidence = false;
})
default_matrix Intent.emergency = none
default_matrix Intent.non_standard =
    some (record (plain_rule handoff) { gated_by_confidence = false })
default_matrix Intent.small_talk = some (record (plain_rule answer) { gated_by_confidence = false })
default_matrix Intent.out_of_scope =
    some (record (plain_rule answer) { gated_by_confidence = false })

pub record AutonomyMatrix : Type 0 where
  pub rules : Rules
  pub confidence_threshold : ℕ
  pub version : String

abbrev pub policy_version : String
policy_version = "1.1"

-- `AutonomyMatrix()`
abbrev pub built_in : AutonomyMatrix
built_in = record { rules = default_matrix; confidence_threshold = 7500; version = policy_version }

or_rule : Option IntentRule → IntentRule → IntentRule
or_rule none d = d
or_rule (some r) d = r

unfoldable pub rule_for : AutonomyMatrix → Intent → IntentRule
unfolding or_rule
rule_for m intent = or_rule (m.rules intent) (plain_rule handoff)

-- `rules[intent] = r`
unfoldable pub set_rule : Intent → IntentRule → Rules → Rules
set_rule i r rules j = if Intent.same i j then some r else rules j

-- `AgentActionKind(x)`
kind_of : Json → Result PyError AgentActionKind
kind_of (str s) = elim (action_kind s) [ none ↦ err value_error | some k ↦ ok k ]
kind_of _ = err value_error

-- `spec["autonomous"]`
required_field : String → Fields → Result PyError Json
required_field k spec = elim (get_field k spec) [ none ↦ err key_error | some v ↦ ok v ]

-- The `IntentRule(…)` of the `try` block; its arguments are evaluated in order.
unfoldable pub read_rule : Fields → Result PyError IntentRule
unfolding kind_of required_field
read_rule spec = do
  autonomous ← required_field "autonomous" spec
  kind ← kind_of autonomous
  tools ← tuple_of (get_default "allowed_tools" (arr nil) spec)
  ok (record {
    autonomous = kind;
    allowed_tools = tools;
    requires_confirmation = truth (get_default "requires_confirmation" (bool false) spec);
    gated_by_confidence = truth (get_default "gated_by_confidence" (bool true) spec);
  })

-- `except (KeyError, ValueError): continue`: any other exception goes on up.
unfoldable pub keep_rule : Intent → Rules → Result PyError IntentRule → Result PyError Rules
keep_rule i rules (ok r) = ok (set_rule i r rules)
keep_rule i rules (err key_error) = ok rules
keep_rule i rules (err value_error) = ok rules
keep_rule i rules (err PyError.type_error) = err PyError.type_error

-- A missing entry, and a value that is no object, is skipped.
unfoldable pub load_entry : Option Json → Intent → Rules → Result PyError Rules
unfolding keep_rule
load_entry none i rules = ok rules
load_entry (some (obj spec)) i rules = keep_rule i rules (read_rule spec)
load_entry (some _) i rules = ok rules

-- The body of the loop.
unfoldable pub load_rule : Fields → Intent → Rules → Result PyError Rules
load_rule json i rules = load_entry (get_field (Intent.value i) json) i rules

unfoldable pub load_rules : Fields → List Intent → Rules → Result PyError Rules
load_rules json [] rules = ok rules
load_rules json (i ∷ is) rules = load_rule json i rules >>= load_rules json is

unfoldable pub with_rules : ℕ → String → Result PyError Rules → Result PyError AutonomyMatrix
with_rules threshold version (ok rules) =
    ok (record { rules = rules; confidence_threshold = threshold; version = version })
with_rules threshold version (err e) = err e

-- `AutonomyMatrix.from_policy`
unfoldable pub from_policy : ℕ → String → Option Fields → Result PyError AutonomyMatrix
unfolding with_rules
from_policy threshold version none = with_rules threshold version (ok default_matrix)
from_policy threshold version (some end) = with_rules threshold version (ok default_matrix)
from_policy threshold version (some (field k v fs)) =
    with_rules threshold version (load_rules (field k v fs) Intent.members default_matrix)
