-- ===== src/Onboarding/NoDeadEnd.antt =====
-- There is a next step as long as the verification is not complete.
use kb_concierge.Prelude.{
  String, Bool, true, false, ◌&&◌, ◌||◌, ◌≡◌, ◌≢◌, refl, inl, inr, Option, none, some, List, [],
  ◌∷◌, str_eq, subst, arith, eq_iff, Bool-cases, not,
}
use kb_concierge.Onboarding.{
  OnboardingStep, Status, member, all_in, refers_back, is_done, completed_step_ids, next_in,
  next_step, all_done, is_complete, build_guide, guide_with, known_guide, OnboardingGuide,
}

-- All of some identifiers are among others.
pub Within : List String → List String → Type 0
Within seen done = (k : String) → member k seen ≡ true → member k done ≡ true

all_in-Within :
    (rs seen done : List String) → Within seen done → all_in rs seen ≡ true → all_in rs done ≡ true
unfolding all_in Within
all_in-Within [] seen done w h = refl
all_in-Within (r ∷ rs) seen done w h = ground (arith, w r, all_in-Within rs seen done w)

Within-add :
    (k : String) (seen done : List String)
    → member k done ≡ true
    → Within seen done
    → Within (k ∷ seen) done
unfolding Within
Within-add k seen done h w j m = ground (arith, eq_iff j k, w j)

-- Every step's identifier is among the done ones.
pub ids_done : List String → List OnboardingStep → Bool
ids_done done [] = true
ids_done done (s ∷ ss) = member s.step_id done && ids_done done ss

-- If the requirements refer back, and there is no next step, then every identifier is done.
next_in-none :
    (done seen : List String) (steps : List OnboardingStep)
    → Within seen done
    → refers_back seen steps ≡ true
    → next_in done steps ≡ none
    → ids_done done steps ≡ true
unfolding next_in refers_back ids_done
next_in-none done seen [] w r h = refl
next_in-none done seen (s ∷ ss) w r h = elim (Bool-cases (member s.step_id done)) [
  | inl m ↦
      ground (
        arith,
        m,
        h,
        r,
        next_in-none done (s.step_id ∷ seen) ss (Within-add s.step_id seen done m w),
      )
  | inr m ↦ ground (arith, m, h, r, all_in-Within s.requires seen done w)
]

-- No two steps have the same identifier.
unfoldable pub has_id : String → List OnboardingStep → Bool
has_id k [] = false
has_id k (s ∷ ss) = str_eq k s.step_id || has_id k ss

unfoldable pub distinct : List OnboardingStep → Bool
unfolding has_id
distinct [] = true
distinct (s ∷ ss) = not (has_id s.step_id ss) && distinct ss

-- An identifier among the done ones is one of a step that is done.
reflects : List String → Status → List OnboardingStep → Bool
reflects done status [] = true
reflects done status (s ∷ ss) =
    (not (member s.step_id done) || is_done s status) && reflects done status ss

completed-has_id :
    (k : String) (steps : List OnboardingStep) (status : Status)
    → member k (completed_step_ids steps status) ≡ true
    → has_id k steps ≡ true
unfolding completed_step_ids has_id
completed-has_id k [] status h = h
completed-has_id k (s ∷ ss) status h = ground (arith, h, completed-has_id k ss status)

reflects-add :
    (k : String) (done : List String) (status : Status) (steps : List OnboardingStep)
    → has_id k steps ≡ false
    → reflects done status steps ≡ true
    → reflects (k ∷ done) status steps ≡ true
unfolding reflects has_id
reflects-add k done status [] n h = refl
reflects-add k done status (s ∷ ss) n h =
    ground (arith, n, h, eq_iff k s.step_id, eq_iff s.step_id k, reflects-add k done status ss)

completed-reflects :
    (steps : List OnboardingStep) (status : Status)
    → distinct steps ≡ true
    → reflects (completed_step_ids steps status) status steps ≡ true
unfolding completed_step_ids reflects distinct
completed-reflects [] status h = refl
completed-reflects (s ∷ ss) status h = ground (
  arith,
  h,
  completed-reflects ss status,
  completed-has_id s.step_id ss status,
  reflects-add s.step_id (completed_step_ids ss status) status ss,
)

reflects-all_done :
    (done : List String) (status : Status) (steps : List OnboardingStep)
    → reflects done status steps ≡ true
    → ids_done done steps ≡ true
    → all_done steps status ≡ true
unfolding reflects ids_done all_done
reflects-all_done done status [] r h = refl
reflects-all_done done status (s ∷ ss) r h = ground (arith, r, h, reflects-all_done done status ss)

none-Within : (done : List String) → Within [] done
unfolding Within
none-Within done k h = ground (arith, h)

-- If the steps of a role refer back and no two have one identifier, then no next step is found
-- only where all steps are done.
pub next_step-none :
    (steps : List OnboardingStep) (status : Status)
    → refers_back [] steps ≡ true
    → distinct steps ≡ true
    → next_step steps status ≡ none
    → all_done steps status ≡ true
unfolding next_step
next_step-none steps status r d h =
    let done = completed_step_ids steps status in
    reflects-all_done done status steps (completed-reflects steps status d)
      (next_in-none done [] steps (none-Within done) r h)

known_guide-some :
    (role : String) (steps : List OnboardingStep) (status : Status) (s : Option OnboardingStep)
    → s ≢ none
    → (g : OnboardingGuide) × (known_guide role steps status s ≡ some g)
unfolding known_guide
known_guide-some role steps status none h = absurd (h refl)
known_guide-some role steps status (some s) h = (_, refl)

-- No dead end: for a role with steps that refer back, no two of one identifier, there is a guide
-- for every status.
pub build_guide-some :
    (role : String) (s : OnboardingStep) (ss : List OnboardingStep) (status : Status)
    → refers_back [] (s ∷ ss) ≡ true
    → distinct (s ∷ ss) ≡ true
    → (g : OnboardingGuide) × (build_guide role (s ∷ ss) (some status) ≡ some g)
unfolding build_guide guide_with is_complete
build_guide-some role s ss status r d = elim (Bool-cases (all_done (s ∷ ss) status)) [
  | inl c ↦ rw c (_, refl)
  | inr c ↦
      rw c (
        known_guide-some role (s ∷ ss) status _ (λ e. cc (c, next_step-none (s ∷ ss) status r d e)))
]

ready : List String → Option OnboardingStep → Bool
ready done none = true
ready done (some s) = not (member s.step_id done) && all_in s.requires done

next_in-ready :
    (done : List String) (steps : List OnboardingStep) → ready done (next_in done steps) ≡ true
unfolding next_in ready
next_in-ready done [] = refl
next_in-ready done (t ∷ ts) = elim (Bool-cases (member t.step_id done)) [
  | inl m ↦ rw m (next_in-ready done ts)
  | inr m ↦ rw m (elim (Bool-cases (all_in t.requires done)) [
    | inl q ↦ rw q (ground (arith, m, q))
    | inr q ↦ rw q (next_in-ready done ts)
  ])
]

-- A next step is never one that is done, and all that it requires is done.
pub next_step-ready :
    (steps : List OnboardingStep) (status : Status) (s : OnboardingStep)
    → next_step steps status ≡ some s
    → (member s.step_id (completed_step_ids steps status) ≡ false)
      × (all_in s.requires (completed_step_ids steps status) ≡ true)
unfolding next_step ready
next_step-ready steps status s h =
    let done = completed_step_ids steps status in
    let ok = subst (λ o. ready done o ≡ true) h (next_in-ready done steps) in
    (ground (arith, ok), ground (arith, ok))
