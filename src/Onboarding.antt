-- ===== src/Onboarding.antt =====
-- backend/src/api/onboarding/{flow,guide,outcome}.py: the next step of a user's verification, and
-- what to show. `steps` are the loaded steps of the role; `status` gives the truth of each flag.
pub mod NoDeadEnd
pub mod Platform
pub mod Surface
use kb_concierge.Prelude.{
  ℕ, suc, ◌+◌, String, Bool, true, false, ◌&&◌, not, Option, none, some, List, [], ◌∷◌, ◌++◌, map,
  keep, any, all, length, if◌then◌else◌, str_eq, non_empty,
}

pub record OnboardingStep : Type 0 where
  pub step_id : String
  pub role : String
  pub target_action : String
  pub screen_ref : String
  pub requires : List String
  pub done_flag : String
  pub blocker_reason : Option String
  pub title : String
  pub why : String

abbrev pub Status : Type 0
Status = String → Bool

abbrev pub member : String → List String → Bool
member s xs = any (str_eq s) xs

unfoldable pub all_in : List String → List String → Bool
all_in [] seen = true
all_in (r ∷ rs) seen = member r seen && all_in rs seen

-- The check of `_parse` on the steps of a role: a requirement names a step that came before.
unfoldable pub refers_back : List String → List OnboardingStep → Bool
unfolding all_in
refers_back seen [] = true
refers_back seen (s ∷ ss) = all_in s.requires seen && refers_back (s.step_id ∷ seen) ss

unfoldable pub is_done : OnboardingStep → Status → Bool
is_done s status = status s.done_flag

id_of : OnboardingStep → String
id_of s = s.step_id

unfoldable pub completed_step_ids : List OnboardingStep → Status → List String
completed_step_ids [] status = []
completed_step_ids (s ∷ ss) status =
    let rest = completed_step_ids ss status in if is_done s status then s.step_id ∷ rest else rest

-- The loop of `next_step`, with the set `done`.
unfoldable pub next_in : List String → List OnboardingStep → Option OnboardingStep
unfolding all_in
next_in done [] = none
next_in done (s ∷ ss) =
    let rest = next_in done ss in
    if member s.step_id done then rest else if all_in s.requires done then some s else rest

unfoldable pub next_step : List OnboardingStep → Status → Option OnboardingStep
next_step steps status = next_in (completed_step_ids steps status) steps

unfoldable pub all_done : List OnboardingStep → Status → Bool
all_done [] status = true
all_done (s ∷ ss) status = is_done s status && all_done ss status

unfoldable pub is_complete : List OnboardingStep → Status → Bool
is_complete [] status = false
is_complete (s ∷ ss) status = all_done (s ∷ ss) status

unfoldable pub progress : List OnboardingStep → Status → ℕ × ℕ
progress steps status = (length (completed_step_ids steps status), length steps)

unfoldable pub step_for_blocker : List OnboardingStep → String → Option OnboardingStep
step_for_blocker [] reason = none
step_for_blocker (s ∷ ss) reason =
    let rest = step_for_blocker ss reason in
    elim s.blocker_reason [ none ↦ rest | some b ↦ if str_eq b reason then some s else rest ]

pub record OnboardingGuide : Type 0 where
  pub role : String
  pub known : Bool
  pub complete : Bool
  pub title : String
  pub why : String
  pub step_id : Option String
  pub screen_ref : Option String
  pub done : ℕ
  pub total : ℕ
  pub blocker_reason : Option String
  pub path : List (String × String)

-- `s.title or s.target_action`
abbrev pub title_of : OnboardingStep → String
title_of s = if non_empty s.title then s.title else s.target_action

place_of : OnboardingStep → String × String
place_of s = (s.step_id, title_of s)

unfoldable pub path_of : List OnboardingStep → List (String × String)
unfolding place_of
path_of steps = map place_of steps

abbrev pub finale : String → String × String
finale role =
    if str_eq role "tenant"
    then ("Готово! Теперь можно бронировать", "Верификация пройдена — выбирайте жильё.")
    else if str_eq role "owner"
    then ("Готово! Объект можно листить", "Верификация пройдена — размещайте объект.")
    else ("Готово!", "")

abbrev pub path_title : String → String
path_title role =
    if str_eq role "tenant"
    then "Несколько шагов до бронирования"
    else if str_eq role "owner"
    then "Несколько шагов до размещения объекта"
    else "Пройдём верификацию"

abbrev pub path_why : String
path_why = "Пройдём их по одному — покажу, что нужно на каждом."

-- The guide of a step, or of none.
unfoldable pub guide :
    String
    → Bool
    → Bool
    → String × String
    → Option String × Option String
    → ℕ
    → ℕ
    → Option String
    → List (String × String)
    → OnboardingGuide
guide role known complete (title, why) (step_id, screen_ref) done total blocker path = record {
  role = role;
  known = known;
  complete = complete;
  title = title;
  why = why;
  step_id = step_id;
  screen_ref = screen_ref;
  done = done;
  total = total;
  blocker_reason = blocker;
  path = path;
}

step_guide :
    String → Bool → OnboardingStep → ℕ × ℕ → Option String → List OnboardingStep → OnboardingGuide
step_guide role known s (done, total) blocker steps =
    guide role known false (title_of s, s.why) (some s.step_id, some s.screen_ref) done total
      blocker (path_of steps)

known_guide : String → List OnboardingStep → Status → Option OnboardingStep → Option OnboardingGuide
unfolding step_guide
known_guide role steps status none = none
known_guide role steps status (some s) =
    some (step_guide role true s (progress steps status) none steps)

guide_with : String → List OnboardingStep → Option Status → Option OnboardingGuide
unfolding known_guide
guide_with role steps none = some (
    guide role false false (path_title role, path_why) (none, none) 0 (length steps) none
      (path_of steps))
guide_with role steps (some status) =
    if is_complete steps status
    then some (
        guide role true true (finale role) (none, none) (progress steps status).0 (length steps)
          none (path_of steps))
    else known_guide role steps status (next_step steps status)

-- `build_guide`; no status is the mode of the path.
unfoldable pub build_guide : String → List OnboardingStep → Option Status → Option OnboardingGuide
unfolding guide_with
build_guide role [] status = none
build_guide role (s ∷ ss) status = guide_with role (s ∷ ss) status

known_progress : List OnboardingStep → Option Status → ℕ × ℕ
known_progress steps none = (0, length steps)
known_progress steps (some status) = progress steps status

abbrev is_known : Option Status → Bool
is_known none = false
is_known (some s) = true

-- `guide_for_blocker`
unfoldable pub guide_for_blocker :
    String → List OnboardingStep → String → Option Status → Option OnboardingGuide
unfolding step_guide known_progress
guide_for_blocker role steps reason status = elim (step_for_blocker steps reason) [
  | none ↦ build_guide role steps status
  | some s ↦
      some (step_guide role (is_known status) s (known_progress steps status) (some reason) steps)
]

pub record OnboardingOutcome : Type 0 where
  pub complete : Bool
  pub step_id : Option String
  pub step_seq : ℕ
  pub done : ℕ

-- The place of the first step with an identifier, from 1.
place_from : ℕ → String → List OnboardingStep → ℕ
place_from i k [] = i
place_from i k (s ∷ ss) =
    let rest = place_from (i + 1) k ss in if str_eq s.step_id k then i else rest

outcome_at : List OnboardingStep → Status → Option OnboardingStep → Option OnboardingOutcome
unfolding place_from
outcome_at steps status none = none
outcome_at steps status (some s) = some (record {
  complete = false;
  step_id = some s.step_id;
  step_seq = place_from 1 s.step_id steps;
  done = length (completed_step_ids steps status);
})

-- `outcome_from_status`
unfoldable pub outcome_from_status : List OnboardingStep → Status → Option OnboardingOutcome
unfolding outcome_at
outcome_from_status [] status = none
outcome_from_status (s ∷ ss) status =
    if is_complete (s ∷ ss) status
    then some (record {
      complete = true;
      step_id = none;
      step_seq = length (s ∷ ss);
      done = length (completed_step_ids (s ∷ ss) status);
    })
    else outcome_at (s ∷ ss) status (next_step (s ∷ ss) status)
