-- ===== src/Sessions/Prefs.antt =====
-- `_merge_prefs` and `_save_prefs` of backend/src/api/sessions/service.py: the fields of an order
-- that a user gives the same way each time.
use kb_concierge.Prelude.{
  String, ◌&&◌, not, none, some, List, [], ◌∷◌, any, if◌then◌else◌, str_eq, Dict, lookup, insert,
  merge,
}
use kb_concierge.Orders.{required_keys, answered}
use kb_concierge.Sessions.Model.{UserPrefs}
use kb_concierge.Sessions.State.{St}

-- `_STABLE_PREF_KEYS`
abbrev pub stable_pref_keys : List String
stable_pref_keys = "cleaning_type" ∷ "city" ∷ "movers_packing" ∷ "access" ∷ []

-- `answers[key] = stored[key]`, where there is one
abbrev pub copy : String → Dict String → Dict String → Dict String
copy k stored answers = elim (lookup k stored) [ none ↦ answers | some v ↦ insert k v answers ]

unfoldable pub fill : List String → Dict String → List String → Dict String → Dict String
fill keys stored [] answers = answers
fill keys stored (k ∷ ks) answers = fill keys stored ks (
    if any (str_eq k) keys && (not (answered answers k) && answered stored k)
    then copy k stored answers
    else answers)

abbrev pub stored_fields : Dict UserPrefs → String → Dict String
stored_fields prefs user = elim (lookup user prefs) [ none ↦ [] | some p ↦ p.fields ]

unfoldable pub merge_prefs : St → String → Dict String → Dict String
merge_prefs st category answers = elim st.session.user_id [
  | none ↦ answers
  | some user ↦ fill (required_keys category) (stored_fields st.prefs user) stable_pref_keys answers
]

-- `{k: answers[k] for k in keys if answers.get(k)}`
unfoldable pub pick : List String → Dict String → Dict String
pick [] answers = []
pick (k ∷ ks) answers =
    let rest = pick ks answers in
    elim (lookup k answers) [
      | none ↦ rest
      | some v ↦ if answered answers k then (k, v) ∷ rest else rest
    ]

unfoldable pub keep_prefs : St → String → String → Dict String → St
keep_prefs st user category [] = st
keep_prefs st user category (f ∷ fs) =
    let p : UserPrefs = record {
      category = category;
      fields = merge (stored_fields st.prefs user) (f ∷ fs);
    } in
    record st { prefs = insert user p st.prefs }

unfoldable pub save_prefs : St → String → Dict String → St
unfolding keep_prefs
save_prefs st category answers = elim st.session.user_id [
  | none ↦ st
  | some user ↦ keep_prefs st user category (pick stable_pref_keys answers)
]
