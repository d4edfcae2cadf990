-- ===== src/Tests/Turns.antt =====
-- Runs of the reasoning loop, and of the reading of a user's reply.
use kb_concierge.Prelude.{
  ◌≡◌, refl, true, [], codes, lower, strip, any_in, is_space, has_str, truth, get_field,
}
use kb_concierge.Intent.{Intent}
use kb_concierge.Policy.Kinds.{tool_call}
use kb_concierge.Reasoning.Calls.{call, call_tool}
use kb_concierge.Reasoning.Loop.{run}
use kb_concierge.Reasoning.Writes.{handle_tool_call, run_partner_service}
use kb_concierge.Reasoning.Traced.{Grows, Permitted}
use kb_concierge.Reasoning.Bounded.{run-Permitted}
use kb_concierge.Reasoning.Consent.{run-action}
use kb_concierge.Reasoning.Writes.Action.{Consented}
use kb_concierge.Reasoning.Detect.{detect_confirmation, yes_given}
use kb_concierge.Reasoning.Detect.Verdicts.{negated-consents}
use kb_concierge.Tests.Sample

run-Permitted_example :
    let (r, log') = run Sample.env (Sample.turn true) [] in
    Grows (Permitted Sample.order_decision Sample.context) r.tool_calls [] log'
run-Permitted_example = run-Permitted Sample.env (Sample.turn true) []

run-action_example :
    (tool_call ≡ tool_call)
    × Consented Sample.env Sample.order_decision Sample.context Intent.partner_service true
unfolding run handle_tool_call run_partner_service has_str call_tool call truth get_field
run-action_example = run-action Sample.env (Sample.turn true) [] refl

negated-consents_example : detect_confirmation "я не согласен" ≡ yes_given
unfolding lower strip is_space any_in
negated-consents_example = negated-consents "я не согласен" (codes "я ") (codes "сен") refl refl
