-- ===== src/Emergency.antt =====
-- backend/src/api/emergency/playbook.py: the kind of an accident, and what to say. The playbook is
-- the loaded configuration.
use kb_concierge.Prelude.{
  ℕ, ◌+◌, String, Option, none, some, List, [], ◌∷◌, ◌++◌, map, if◌then◌else◌, str_eq, non_empty,
  Codes, lower, any_in, fstring, join, Dict,
}

pub record PlaybookEntry : Type 0 where
  pub type_name : String
  pub scope : String
  pub headline : String
  pub steps : List String
  pub call_line : String
  pub contacts : List String
  pub partner_mode : String
  pub repair_subcategory : String
  pub partner_question : String

-- `uk_with` is the template of the line with a contact; `number` prints the place of a step.
pub record Playbook : Type 0 where
  pub entries : Dict PlaybookEntry
  pub triggers : List (String × List String)
  pub info_suppress : List String
  pub uk_with : String → String
  pub uk_without : String
  pub number : ℕ → String

first_trigger : Codes → List (String × List String) → Option String
first_trigger text [] = none
first_trigger text ((kind, stems) ∷ rest) =
    if any_in text stems then some kind else first_trigger text rest

unfoldable pub classify_emergency : Playbook → String → Option String
unfolding first_trigger
classify_emergency book masked_text =
    let text = lower masked_text in
    if any_in text book.info_suppress then none else first_trigger text book.triggers

-- `_uk_line`
uk_line : Playbook → Option String → String
uk_line book none = book.uk_without
uk_line book (some contact) = if non_empty contact then book.uk_with contact else book.uk_without

numbered_steps : Playbook → ℕ → List String → List String
numbered_steps book i [] = []
numbered_steps book i (s ∷ ss) =
    fstring (book.number i ∷ ". " ∷ s ∷ []) ∷ numbered_steps book (i + 1) ss

step_lines : Playbook → List String → List String
unfolding numbered_steps
step_lines book [] = []
step_lines book (s ∷ ss) = "Что сделать прямо сейчас:" ∷ numbered_steps book 1 (s ∷ ss)

contact_line : Playbook → Option String → String → String
unfolding uk_line
contact_line book uk c = fstring ("• " ∷ (if str_eq c "{uk}" then uk_line book uk else c) ∷ [])

unfoldable pub build_emergency_message : Playbook → PlaybookEntry → Option String → String
unfolding step_lines contact_line
build_emergency_message book entry uk = join "\n" (
    fstring ("⚠\u{fe0f} " ∷ entry.headline ∷ [])
    ∷ (step_lines book entry.steps
        ++ (entry.call_line
            ∷ (map (contact_line book uk) entry.contacts
                ++ (if non_empty entry.partner_question
                    then entry.partner_question ∷ []
                    else [])))))
