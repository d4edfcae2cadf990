-- ===== src/Reasoning/Detect/Verdicts.antt =====
-- The verdicts on consent.
use mathlib.Core.List.{append_assoc}
use kb_concierge.Prelude.{
  sym, ◌∙◌, String, ◌≡◌, true, false, ◌++◌, arith, Codes, codes, lower, strip, any_in, any, occurs,
}
use kb_concierge.Prelude.Search.{Among, any_in-Among, occurs-append}
use kb_concierge.Reasoning.Detect.{
  yes_given, no_given, confirm_yes, confirm_no, token_match, detect_in, detect_confirmation,
}

-- A word of refusal anywhere in a reply makes it a refusal, whatever words of consent it holds.
pub refusal-wins :
    (reply n : String) (before after : Codes)
    → Among n confirm_no
    → strip (lower reply) ≡ before ++ (codes n ++ after)
    → detect_confirmation reply ≡ no_given
unfolding detect_confirmation detect_in
refusal-wins reply n before after listed e = rw (e, any_in-Among n confirm_no before after listed)

stem_found :
    (text before after : Codes)
    → text ≡ before ++ (codes "согла" ++ after)
    → any (token_match text) confirm_yes ≡ true
unfolding token_match
stem_found text before after e =
    let found : occurs (codes "согла") text ≡ true =
      rw e (occurs-append before (codes "согла") after) in
    ground arith

-- A reply that says "не согласен" (in any form: "не согла…") and holds none of the words of
-- refusal counts as consent, since the stem of consent occurs in it.
pub negated-consents :
    (reply : String) (before after : Codes)
    → any_in (strip (lower reply)) confirm_no ≡ false
    → strip (lower reply) ≡ before ++ (codes "не " ++ (codes "согла" ++ after))
    → detect_confirmation reply ≡ yes_given
unfolding detect_confirmation detect_in
negated-consents reply before after none_of e =
    let whole = sym (append_assoc before (codes "не ") (codes "согла" ++ after)) in
    rw (none_of, stem_found (strip (lower reply)) (before ++ codes "не ") after (e ∙ whole))
