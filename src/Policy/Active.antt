-- ===== src/Policy/Active.antt =====
-- At most one stored policy is active, through every request.
use kb_concierge.Prelude.{
  ℕ, suc, ◌+◌, ◌≤◌, ◌≡◌, refl, Bool, true, false, Option, none, some, List, [], ◌∷◌, ◌++◌, arith,
  if◌then◌else◌, Result, ok, err, sym, ap, ◌∙◌,
}
use kb_concierge.Policy.Store.{
  AutonomyPolicy, Table, Problem, PolicyCreate, PolicyUpdate, get, get_active, deactivate_all, save,
  create_policy, created, updated, update_found, apply_update, update_policy,
}

abbrev pub active_count : Table → ℕ
active_count [] = 0
active_count (p ∷ ps) = if p.active then suc (active_count ps) else active_count ps

-- The partial unique index: the invariant of the table.
abbrev pub IsSingle : Table → Type 0
IsSingle table = active_count table ≤ 1

active_count-deactivate : (t : Table) → active_count (deactivate_all t) ≡ 0
unfolding deactivate_all
active_count-deactivate [] = refl
active_count-deactivate (p ∷ ps) = active_count-deactivate ps

active_count-append : (t u : Table) → active_count (t ++ u) ≡ active_count t + active_count u
active_count-append [] u = omega arith
active_count-append (p ∷ ps) u = ground (arith, active_count-append ps u)

-- Saving a row that is not active adds no active row; saving an active one adds at most one.
active_count-save :
    (q : AutonomyPolicy) (t : Table)
    → active_count (save q t) ≤ active_count t + (if q.active then 1 else 0)
unfolding save
active_count-save q [] = ground arith
active_count-save q (p ∷ ps) = ground (arith, active_count-save q ps)

-- Saving a row in place of an active one, or one that is not active, adds none.
active_count-save_same :
    (q p : AutonomyPolicy) (t : Table)
    → get q.id t ≡ some p
    → p.active ≡ true
    → active_count (save q t) ≤ active_count t
unfolding save get
active_count-save_same q p [] g a = cc
active_count-save_same q p (r ∷ rs) g a = ground (arith, active_count-save_same q p rs)

get_active-append :
    (t : Table) (p : AutonomyPolicy)
    → p.active ≡ true
    → get_active (deactivate_all t ++ p ∷ []) ≡ some p
unfolding get_active deactivate_all
get_active-append [] p on = rw on
get_active-append (q ∷ qs) p on = get_active-append qs p on

abbrev table_or : Table → Result Problem Table → Table
table_or t (ok t') = t'
table_or t (err _) = t

get-id : (i : ℕ) (p : AutonomyPolicy) (t : Table) → get i t ≡ some p → p.id ≡ i
unfolding get
get-id i p [] h = cc
get-id i p (q ∷ qs) h = ground (arith, get-id i p qs)

create-IsSingle :
    (admin : Bool) (id : ℕ) (payload : PolicyCreate) (t : Table)
    → IsSingle t
    → IsSingle (table_or t (create_policy admin id payload t))
unfolding create_policy
create-IsSingle false id payload t h = h
create-IsSingle true id payload t h = ground (
  arith,
  active_count-append t (created id payload ∷ []),
  active_count-append (deactivate_all t) (created id payload ∷ []),
  active_count-deactivate t,
)

apply_update-IsSingle :
    (p : AutonomyPolicy) (payload : PolicyUpdate) (t : Table)
    → get p.id t ≡ some p
    → IsSingle t
    → IsSingle (apply_update payload p t)
unfolding apply_update updated
apply_update-IsSingle p payload t g h = ground (
  arith,
  active_count-save (updated payload p) t,
  active_count-save (updated payload p) (deactivate_all t),
  active_count-save_same (updated payload p) p t g,
  active_count-deactivate t,
)

update_found-IsSingle :
    (payload : PolicyUpdate) (o : Option AutonomyPolicy) (t : Table)
    → ((p : AutonomyPolicy) → o ≡ some p → get p.id t ≡ some p)
    → IsSingle t
    → IsSingle (table_or t (update_found payload o t))
unfolding update_found
update_found-IsSingle payload none t found h = h
update_found-IsSingle payload (some p) t found h =
    apply_update-IsSingle p payload t (found p refl) h

update-IsSingle :
    (admin : Bool) (id : ℕ) (payload : PolicyUpdate) (t : Table)
    → IsSingle t
    → IsSingle (table_or t (update_policy admin id payload t))
unfolding update_policy
update-IsSingle false id payload t h = h
update-IsSingle true id payload t h =
    update_found-IsSingle payload (get id t) t (λ p e. cc (get-id id p t e, e)) h

pub data Request : Type 0 where
  create : Bool → ℕ → PolicyCreate → Request
  update : Bool → ℕ → PolicyUpdate → Request

-- A request that fails leaves the table as it is: its transaction is rolled back.
unfoldable pub serve : List Request → Table → Table
serve [] t = t
serve (create admin id payload ∷ rs) t = serve rs (table_or t (create_policy admin id payload t))
serve (update admin id payload ∷ rs) t = serve rs (table_or t (update_policy admin id payload t))

-- Through any sequence of create and update requests, of an admin or not, at most one stored
-- policy is active, if at most one was.
pub serve-IsSingle : (rs : List Request) (t : Table) → IsSingle t → IsSingle (serve rs t)
unfolding serve
serve-IsSingle [] t h = h
serve-IsSingle (create admin id payload ∷ rs) t h =
    serve-IsSingle rs (table_or t (create_policy admin id payload t))
      (create-IsSingle admin id payload t h)
serve-IsSingle (update admin id payload ∷ rs) t h =
    serve-IsSingle rs (table_or t (update_policy admin id payload t))
      (update-IsSingle admin id payload t h)

-- After an admin has created an active policy, it is the one that is found as active, whatever
-- stood in the table.
pub get_active-create :
    (id : ℕ) (payload : PolicyCreate) (t t' : Table)
    → payload.active ≡ true
    → create_policy true id payload t ≡ ok t'
    → get_active t' ≡ some (created id payload)
unfolding create_policy
get_active-create id payload t t' on e =
    ap get_active (sym (ap (table_or t) e))
    ∙ ground (arith, get_active-append t (created id payload) on)
