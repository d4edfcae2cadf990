-- ===== src/Ledger/Single.antt =====
-- At most one open record per kind and subject.
use kb_concierge.Prelude.{
  zero, suc, Option-cases, inl, inr, ℕ, ◌+◌, ◌≤◌, ◌≡◌, refl, String, true, false, Option, none,
  some, List, [], ◌∷◌, ◌++◌, arith, eq_iff, if◌then◌else◌, subst,
}
use kb_concierge.Ledger.{
  OutcomeRecord, open_for, get_open, change_open, change_or_add, Progress, opened, moved, advanced,
  record_progress, Completion, completed_new, completed_old, record_completion, settlable,
  settle_abandoned, earliest, settle_first, process_settle_batch,
}

-- The number of open records of a kind and a subject.
unfoldable pub open_count : String → String → List OutcomeRecord → ℕ
open_count kind key [] = 0
open_count kind key (r ∷ rs) = (if open_for kind key r then 1 else 0) + open_count kind key rs

-- A change that keeps the kind and the subject, and opens nothing.
pub OpensNothing : (OutcomeRecord → OutcomeRecord) → Type 0
OpensNothing f =
    (kind key : String) (r : OutcomeRecord)
    → open_for kind key (f r) ≡ true
    → open_for kind key r ≡ true

change_open-count :
    (f : OutcomeRecord → OutcomeRecord) (kind key i k : String) (rs : List OutcomeRecord)
    → OpensNothing f
    → open_count i k (change_open f kind key rs) ≤ open_count i k rs
unfolding open_count change_open OpensNothing
change_open-count f kind key i k [] h = omega arith
change_open-count f kind key i k (r ∷ rs) h =
    ground (arith, h i k r, change_open-count f kind key i k rs h)

append-count :
    (i k : String) (rs : List OutcomeRecord) (r : OutcomeRecord)
    → open_count i k (rs ++ r ∷ []) ≡ open_count i k rs + (if open_for i k r then 1 else 0)
unfolding open_count
append-count i k [] r = omega arith
append-count i k (s ∷ rs) r = ground (arith, append-count i k rs r)

get_open-none :
    (i k : String) (rs : List OutcomeRecord) → get_open i k rs ≡ none → open_count i k rs ≡ 0
unfolding get_open open_count
get_open-none i k [] h = refl
get_open-none i k (r ∷ rs) h = ground (arith, h, get_open-none i k rs)

unfoldable pub IsSingle : List OutcomeRecord → Type 0
IsSingle rs = (i k : String) → open_count i k rs ≤ 1

advanced-opens : (p : Progress) → OpensNothing (advanced p)
unfolding OpensNothing advanced moved open_for
advanced-opens p i k r h = ground (arith, h)

completed_old-opens : (c : Completion) → OpensNothing (completed_old c)
unfolding OpensNothing completed_old open_for
completed_old-opens c i k r h = ground (arith, h)

opened-for :
    (kind key i k : String) (p : Progress)
    → open_for i k (opened kind key p) ≡ true
    → (kind ≡ i) × (key ≡ k)
unfolding open_for opened
opened-for kind key i k p h = (ground (arith, h, eq_iff kind i), ground (arith, h, eq_iff key k))

change_or_add-IsSingle :
    (o : Option OutcomeRecord) (f : OutcomeRecord → OutcomeRecord) (new : OutcomeRecord)
    (kind key : String) (rs : List OutcomeRecord)
    → OpensNothing f
    → (o ≡ none → (i k : String) → open_for i k new ≡ true → open_count i k rs ≡ 0)
    → IsSingle rs
    → IsSingle (change_or_add o f new kind key rs)
unfolding change_or_add IsSingle
change_or_add-IsSingle none f new kind key rs h first s i k =
    ground (arith, append-count i k rs new, first refl i k, s i k)
change_or_add-IsSingle (some r) f new kind key rs h first s i k =
    ground (arith, change_open-count f kind key i k rs h, s i k)

completed_new-closed :
    (kind key i k : String) (c : Completion) → open_for i k (completed_new kind key c) ≡ false
unfolding open_for completed_new
completed_new-closed kind key i k c = ground arith

settle_first-count :
    (now t : ℕ) (i k : String) (rs : List OutcomeRecord)
    → open_count i k (settle_first now t rs) ≤ open_count i k rs
unfolding open_count settle_first settle_abandoned open_for settlable
settle_first-count now t i k [] = omega arith
settle_first-count now t i k (r ∷ rs) = ground (arith, settle_first-count now t i k rs)

settle-count :
    (limit now : ℕ) (i k : String) (rs : List OutcomeRecord)
    → open_count i k (process_settle_batch limit now rs).1 ≤ open_count i k rs
unfolding process_settle_batch
settle-count zero now i k rs = omega arith
settle-count (suc limit) now i k rs = elim (Option-cases (earliest now rs)) [
  | inl e ↦ rw (e, process_settle_batch) (omega arith)
  | inr e ↦
      rw (e.1, process_settle_batch)
        (omega (
          arith,
          settle-count limit now i k (settle_first now e.0 rs),
          settle_first-count now e.0 i k rs,
        ))
]

-- What a producer or the worker does to the table.
pub data Change : Type 0 where
  progressed : String → String → Progress → Change
  finished : String → String → Completion → Change
  swept : ℕ → ℕ → Change

pub apply_change : Change → List OutcomeRecord → List OutcomeRecord
apply_change (progressed kind key p) rs = record_progress kind key p rs
apply_change (finished kind key c) rs = record_completion kind key c rs
apply_change (swept limit now) rs = (process_settle_batch limit now rs).1

opened-first :
    (kind key i k : String) (p : Progress) (rs : List OutcomeRecord)
    → get_open kind key rs ≡ none
    → open_for i k (opened kind key p) ≡ true
    → open_count i k rs ≡ 0
opened-first kind key i k p rs h o =
    let same = opened-for kind key i k p o in
    subst (λ j. open_count j k rs ≡ 0) same.0
      (subst (λ l. open_count kind l rs ≡ 0) same.1 (get_open-none kind key rs h))

-- Every operation of the ledger keeps it that a kind and a subject have at most one open record,
-- progress, completion and the sweep of the abandoned alike.
pub apply_change-IsSingle :
    (c : Change) (rs : List OutcomeRecord) → IsSingle rs → IsSingle (apply_change c rs)
unfolding apply_change record_progress record_completion IsSingle
apply_change-IsSingle (progressed kind key p) rs s =
    change_or_add-IsSingle (get_open kind key rs) (advanced p) (opened kind key p) kind key rs
      (advanced-opens p) (λ h i k. opened-first kind key i k p rs h) s
apply_change-IsSingle (finished kind key c) rs s =
    change_or_add-IsSingle (get_open kind key rs) (completed_old c) (completed_new kind key c) kind
      key rs (completed_old-opens c) (λ h i k o. cc (o, completed_new-closed kind key i k c)) s
apply_change-IsSingle (swept limit now) rs s =
    λ i k. omega (arith, settle-count limit now i k rs, s i k)
