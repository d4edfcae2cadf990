-- ===== src/Ledger.antt =====
-- backend/src/api/ledger: how far a subject came on a path, and how the path ended. The table is a
-- list of records. The index of the database, which allows one open record per kind and subject,
-- is what `Ledger.Single` shows of the operations.
pub mod Single
pub mod Funnel
use kb_concierge.Prelude.{
  ℕ, zero, suc, ◌==◌, ◌+◌, String, Bool, true, false, ◌&&◌, ◌||◌, Option, none, some, List, [], ◌∷◌,
  ◌++◌, if◌then◌else◌, str_eq, ltb, leb, keep, length, Dict, merge,
}

pub data OutcomeState : Type 0 where
  open_state settled : OutcomeState

pub data OutcomeResult : Type 0 where
  completed abandoned : OutcomeResult

pub record OutcomeRecord : Type 0 where
  pub kind : String
  pub subject_key : String
  pub role : Option String
  pub furthest_step : Option String
  pub step_seq : ℕ
  pub state : OutcomeState
  pub result : Option OutcomeResult
  pub opened_at : ℕ
  pub last_progress_at : ℕ
  pub settle_after : ℕ
  pub settled_at : Option ℕ
  pub meta : Dict String

abbrev pub is_open : OutcomeState → Bool
is_open open_state = true
is_open settled = false

unfoldable pub open_for : String → String → OutcomeRecord → Bool
open_for kind key r = str_eq r.kind kind && (str_eq r.subject_key key && is_open r.state)

-- `_get_open`
unfoldable pub get_open : String → String → List OutcomeRecord → Option OutcomeRecord
get_open kind key [] = none
get_open kind key (r ∷ rs) =
    let rest = get_open kind key rs in if open_for kind key r then some r else rest

-- The table after a change of the record that `_get_open` gives.
unfoldable pub change_open :
    (OutcomeRecord → OutcomeRecord) → String → String → List OutcomeRecord → List OutcomeRecord
change_open f kind key [] = []
change_open f kind key (r ∷ rs) =
    let rest = change_open f kind key rs in if open_for kind key r then f r ∷ rs else r ∷ rest

-- The arguments of `record_progress`.
pub record Progress : Type 0 where
  pub step : String
  pub step_seq : ℕ
  pub now : ℕ
  pub window : ℕ
  pub role : Option String
  pub meta : Dict String

abbrev pub or_kept : Option String → Option String → Option String
or_kept none old = old
or_kept (some r) old = some r

unfoldable pub opened : String → String → Progress → OutcomeRecord
opened kind key p = record {
  kind = kind;
  subject_key = key;
  role = p.role;
  furthest_step = some p.step;
  step_seq = p.step_seq;
  state = open_state;
  result = none;
  opened_at = p.now;
  last_progress_at = p.now;
  settle_after = p.now + p.window;
  settled_at = none;
  meta = p.meta;
}

-- The furthest step moves forward only.
unfoldable pub moved : Progress → OutcomeRecord → OutcomeRecord
moved p r =
    if ltb r.step_seq p.step_seq
    then record r {
      furthest_step = some p.step;
      step_seq = p.step_seq;
      last_progress_at = p.now;
      settle_after = p.now + p.window;
    }
    else r

unfoldable pub advanced : Progress → OutcomeRecord → OutcomeRecord
advanced p r =
    let m = moved p r in record m { role = or_kept p.role r.role; meta = merge r.meta p.meta }

unfoldable pub change_or_add :
    Option OutcomeRecord
    → (OutcomeRecord → OutcomeRecord)
    → OutcomeRecord
    → String
    → String
    → List OutcomeRecord
    → List OutcomeRecord
change_or_add none f new kind key rs = rs ++ new ∷ []
change_or_add (some r) f new kind key rs = change_open f kind key rs

-- `record_progress`
unfoldable pub record_progress :
    String → String → Progress → List OutcomeRecord → List OutcomeRecord
record_progress kind key p rs =
    change_or_add (get_open kind key rs) (advanced p) (opened kind key p) kind key rs

-- The arguments of `record_completion`.
pub record Completion : Type 0 where
  pub now : ℕ
  pub step : Option String
  pub step_seq : Option ℕ
  pub role : Option String

abbrev or_zero : Option ℕ → ℕ
or_zero none = 0
or_zero (some n) = n

abbrev or_old : Option ℕ → ℕ → ℕ
or_old none old = old
or_old (some n) old = if ltb 0 n then n else old

abbrev given : Option String → Bool
given none = false
given (some s) = true

abbrev pub settle_as : OutcomeResult → ℕ → OutcomeRecord → OutcomeRecord
settle_as result now r = record r { state = settled; result = some result; settled_at = some now }

unfoldable pub completed_new : String → String → Completion → OutcomeRecord
completed_new kind key c = record {
  kind = kind;
  subject_key = key;
  role = c.role;
  furthest_step = c.step;
  step_seq = or_zero c.step_seq;
  state = settled;
  result = some completed;
  opened_at = c.now;
  last_progress_at = c.now;
  settle_after = c.now;
  settled_at = some c.now;
  meta = [];
}

unfoldable pub completed_old : Completion → OutcomeRecord → OutcomeRecord
completed_old c r =
    let further = given c.step && leb r.step_seq (or_zero c.step_seq) in
    settle_as completed c.now (record r {
      furthest_step = if further then c.step else r.furthest_step;
      step_seq = if further then or_old c.step_seq r.step_seq else r.step_seq;
      role = or_kept c.role r.role;
      last_progress_at = c.now;
    })

-- `record_completion`
unfoldable pub record_completion :
    String → String → Completion → List OutcomeRecord → List OutcomeRecord
record_completion kind key c rs =
    change_or_add (get_open kind key rs) (completed_old c) (completed_new kind key c) kind key rs

-- What `claim_settlable` selects.
unfoldable pub settlable : ℕ → OutcomeRecord → Bool
settlable now r = is_open r.state && leb r.settle_after now

-- `settle_abandoned`
unfoldable pub settle_abandoned : ℕ → OutcomeRecord → OutcomeRecord
settle_abandoned now r = settle_as abandoned now r

sooner : ℕ → Option ℕ → ℕ
sooner t none = t
sooner t (some u) = if leb t u then t else u

-- The first end of a window among the rows that `claim_settlable` selects.
unfoldable pub earliest : ℕ → List OutcomeRecord → Option ℕ
unfolding sooner
earliest now [] = none
earliest now (r ∷ rs) =
    let rest = earliest now rs in
    if settlable now r then some (sooner r.settle_after rest) else rest

-- One of the rows whose window ended at `t` is closed.
unfoldable pub settle_first : ℕ → ℕ → List OutcomeRecord → List OutcomeRecord
settle_first now t [] = []
settle_first now t (r ∷ rs) =
    let rest = settle_first now t rs in
    if settlable now r && (r.settle_after == t) then settle_abandoned now r ∷ rs else r ∷ rest

-- `process_settle_batch`: the rows that `claim_settlable` gives, those whose windows ended first
-- and at most `limit` of them, are closed one by one. A closed row is not selected again, so the
-- next row of the batch is the first of those that are left.
unfoldable pub process_settle_batch : ℕ → ℕ → List OutcomeRecord → ℕ × List OutcomeRecord
process_settle_batch zero now rs = (0, rs)
process_settle_batch (suc limit) now rs = elim (earliest now rs) [
  | none ↦ (0, rs)
  | some t ↦ let (n, rest) = process_settle_batch limit now (settle_first now t rs) in (n + 1, rest)
]
