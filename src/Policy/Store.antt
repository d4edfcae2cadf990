-- ===== src/Policy/Store.antt =====
-- backend/src/api/policy/{models,repository,router}.py: the stored policies, at most one of which
-- is active. `scopes` are those of the verified token.
use kb_concierge.Prelude.{
  ℕ, String, Bool, true, false, ◌&&◌, not, Option, none, some, List, [], ◌∷◌, ◌++◌, ◌==◌,
  if◌then◌else◌, Result, ok, err, Fields,
}

pub record AutonomyPolicy : Type 0 where
  pub id : ℕ
  pub version : String
  pub active : Bool
  pub confidence_threshold : ℕ
  pub rules : Option Fields

abbrev pub Table : Type 0
Table = List AutonomyPolicy

pub data Problem : Type 0 where
  forbidden not_found : Problem

-- The `PolicyCreate` payload.
pub record PolicyCreate : Type 0 where
  pub version : String
  pub confidence_threshold : ℕ
  pub rules : Option Fields
  pub active : Bool

-- The `PolicyUpdate` payload; a field left out is `none`.
pub record PolicyUpdate : Type 0 where
  pub active : Option Bool
  pub confidence_threshold : Option ℕ
  pub rules : Option Fields

-- `PolicyRepository.get`
unfoldable pub get : ℕ → Table → Option AutonomyPolicy
get id [] = none
get id (p ∷ ps) = if p.id == id then some p else get id ps

-- `PolicyRepository.get_active`; with two active rows `scalar_one_or_none` would raise, see
-- `Policy.Active`.
unfoldable pub get_active : Table → Option AutonomyPolicy
get_active [] = none
get_active (p ∷ ps) = if p.active then some p else get_active ps

-- `PolicyRepository.deactivate_all`
unfoldable pub deactivate_all : Table → Table
deactivate_all [] = []
deactivate_all (p ∷ ps) = record p { active = false } ∷ deactivate_all ps

-- A changed row.
unfoldable pub save : AutonomyPolicy → Table → Table
save q [] = []
save q (p ∷ ps) = if p.id == q.id then q ∷ ps else p ∷ save q ps

-- The row of a new policy; `id` is the key that the database assigns.
abbrev pub created : ℕ → PolicyCreate → AutonomyPolicy
created id payload = record {
  id = id;
  version = payload.version;
  active = payload.active;
  confidence_threshold = payload.confidence_threshold;
  rules = payload.rules;
}

-- `require_staff_admin` and then `create_policy`
unfoldable pub create_policy : Bool → ℕ → PolicyCreate → Table → Result Problem Table
create_policy false id payload table = err forbidden
create_policy true id payload table =
    ok ((if payload.active then deactivate_all table else table) ++ created id payload ∷ [])

or_else {ℓ} : {A : Type ℓ} → Option A → A → A
or_else none d = d
or_else (some a) d = a

or_kept : Option Fields → Option Fields → Option Fields
or_kept none d = d
or_kept (some a) d = some a

activates : Option Bool → Bool
activates none = false
activates (some b) = b

-- The row after the three assignments of `update_policy`.
unfoldable pub updated : PolicyUpdate → AutonomyPolicy → AutonomyPolicy
unfolding or_else or_kept
updated payload policy = record policy {
  active = or_else payload.active policy.active;
  confidence_threshold = or_else payload.confidence_threshold policy.confidence_threshold;
  rules = or_kept payload.rules policy.rules;
}

-- The body of `update_policy` once the row is found.
unfoldable pub apply_update : PolicyUpdate → AutonomyPolicy → Table → Table
unfolding activates
apply_update payload policy table =
    save (updated payload policy)
      (if activates payload.active && not policy.active then deactivate_all table else table)

unfoldable pub update_found : PolicyUpdate → Option AutonomyPolicy → Table → Result Problem Table
update_found payload none table = err not_found
update_found payload (some policy) table = ok (apply_update payload policy table)

-- `require_staff_admin` and then `update_policy`
unfoldable pub update_policy : Bool → ℕ → PolicyUpdate → Table → Result Problem Table
update_policy false id payload table = err forbidden
update_policy true id payload table = update_found payload (get id table) table
