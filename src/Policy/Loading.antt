-- ===== src/Policy/Loading.antt =====
-- Loading the matrix from a stored policy: which rule each intent gets, and what can go wrong.
use kb_concierge.Prelude.{
  ℕ, String, ◌≡◌, refl, sym, ap, subst, ◌∙◌, ◌⊎◌, inl, inr, Bool, true, false, Option, none, some,
  List, [], ◌∷◌, arith, if◌then◌else◌, PyError, key_error, value_error, type_error, Result, ok, err,
  Json, Fields, end, field, obj, str, get_field, tuple_of, Bool-cases, >>=-eq-ok,
}
use kb_concierge.Intent
use kb_concierge.Intent.{Intent, same}
use kb_concierge.Policy.Kinds.{AgentActionKind, action_kind}
use kb_concierge.Policy.Matrix.{
  IntentRule, Rules, AutonomyMatrix, default_matrix, set_rule, read_rule, keep_rule, load_entry,
  load_rule, load_rules, with_rules, from_policy,
}

-- What an intent gets from its own entry: the rule that the entry spells, or else the old one.
abbrev or_old : Option IntentRule → Result PyError IntentRule → Option IntentRule
or_old old (ok r) = some r
or_old old (err _) = old

abbrev pub own_rule : Option Json → Option IntentRule → Option IntentRule
own_rule (some (obj spec)) old = or_old old (read_rule spec)
own_rule _ old = old

or_old_idem :
    (old : Option IntentRule) (r : Result PyError IntentRule)
    → or_old (or_old old r) r ≡ or_old old r
or_old_idem old (ok r) = refl
or_old_idem old (err _) = refl

-- Whether an intent stands in a list.
abbrev listed : Intent → List Intent → Bool
listed i [] = false
listed i (j ∷ js) = if same j i then true else listed i js

same-eq : (i j : Intent) → same i j ≡ true → i ≡ j
same-eq i j h = ground arith

-- The rule of an intent in a loaded table.
abbrev at_rule : Intent → Result PyError Rules → Option IntentRule
at_rule j (ok rules) = rules j
at_rule j (err _) = none

keep_rule-own :
    (i j : Intent) (rules rules' : Rules) (r : Result PyError IntentRule)
    → keep_rule i rules r ≡ ok rules'
    → rules' j ≡ (if same i j then or_old (rules j) r else rules j)
unfolding keep_rule set_rule
keep_rule-own i j rules rules' (ok r) h = sym (ap (at_rule j) h)
keep_rule-own i j rules rules' (err key_error) h = sym (ap (at_rule j) h) ∙ ground arith
keep_rule-own i j rules rules' (err value_error) h = sym (ap (at_rule j) h) ∙ ground arith
keep_rule-own i j rules rules' (err type_error) h = cc

entry_rule-own :
    (i j : Intent) (rules rules' : Rules) (e : Option Json)
    → load_entry e i rules ≡ ok rules'
    → rules' j ≡ (if same i j then own_rule e (rules j) else rules j)
unfolding load_entry
entry_rule-own i j rules rules' none h = sym (ap (at_rule j) h) ∙ ground arith
entry_rule-own i j rules rules' (some (obj spec)) h =
    keep_rule-own i j rules rules' (read_rule spec) h
entry_rule-own i j rules rules' (some _) h = sym (ap (at_rule j) h) ∙ ground arith

own_rule_idem :
    (e : Option Json) (old : Option IntentRule) → own_rule e (own_rule e old) ≡ own_rule e old
own_rule_idem none old = refl
own_rule_idem (some (obj spec)) old = or_old_idem old (read_rule spec)
own_rule_idem (some _) old = refl

own_then :
    (b l : Bool) (e e' : Option Json) (old mid new : Option IntentRule)
    → (b ≡ true → e ≡ e')
    → mid ≡ (if b then own_rule e old else old)
    → new ≡ (if l then own_rule e' mid else mid)
    → new ≡ (if (if b then true else l) then own_rule e' old else old)
own_then true true e e' old mid new h p q = q ∙ rw p (rw (h refl) (own_rule_idem e' old))
own_then true false e e' old mid new h p q = q ∙ rw p (rw (h refl))
own_then false true e e' old mid new h p q = q ∙ rw p
own_then false false e e' old mid new h p q = q ∙ p

load_rules-own :
    (json : Fields) (is : List Intent) (j : Intent) (rules rules' : Rules)
    → load_rules json is rules ≡ ok rules'
    → rules' j
      ≡ (if listed j is then own_rule (get_field (Intent.value j) json) (rules j) else rules j)
unfolding load_rules load_rule
load_rules-own json [] j rules rules' h = sym (ap (at_rule j) h)
load_rules-own json (i ∷ is) j rules rules' h =
    let (mid, first, rest) = >>=-eq-ok (load_rule json i rules) (load_rules json is) h in
    own_then (same i j) (listed j is) (get_field (Intent.value i) json)
      (get_field (Intent.value j) json) (rules j) (mid j) (rules' j)
      (λ e. ap (λ k. get_field (Intent.value k) json) (same-eq i j e))
      (entry_rule-own i j rules mid (get_field (Intent.value i) json) first)
      (load_rules-own json is j mid rules' rest)

members-listed : (j : Intent) → listed j Intent.members ≡ true
members-listed j = ground arith

abbrev matrix_or : AutonomyMatrix → Result PyError AutonomyMatrix → AutonomyMatrix
matrix_or d (ok m) = m
matrix_or d (err _) = d

with_rules-eq-ok :
    (threshold : ℕ) (version : String) (r : Result PyError Rules) (m : AutonomyMatrix)
    → with_rules threshold version r ≡ ok m
    → (rules : Rules) × (r ≡ ok rules)
      × (m ≡ record { rules = rules; confidence_threshold = threshold; version = version })
unfolding with_rules
with_rules-eq-ok threshold version (ok rules) m h = (rules, refl, sym (ap (matrix_or m) h))
with_rules-eq-ok threshold version (err e) m h = cc

-- In a matrix that loads from a stored policy, every intent has the rule that its own entry
-- spells, and its built-in rule where the entry is missing, is no object, has no known action or
-- lacks one; the threshold and the version are the stored ones.
pub from_policy-own_rule :
    (threshold : ℕ) (version : String) (json : Fields) (m : AutonomyMatrix) (j : Intent)
    → from_policy threshold version (some json) ≡ ok m
    → (m.rules j ≡ own_rule (get_field (Intent.value j) json) (default_matrix j))
      × (m.confidence_threshold ≡ threshold)
      × (m.version ≡ version)
unfolding from_policy get_field default_matrix
from_policy-own_rule threshold version end m j h =
    let (rules, p, e) = with_rules-eq-ok threshold version (ok default_matrix) m h in
    (
      ap (λ (n : AutonomyMatrix). n.rules j) e ∙ sym (ap (at_rule j) p),
      ap (λ (n : AutonomyMatrix). n.confidence_threshold) e,
      ap (λ (n : AutonomyMatrix). n.version) e,
    )
from_policy-own_rule threshold version (field k v fs) m j h =
    let loaded = load_rules (field k v fs) Intent.members default_matrix in
    let (rules, p, e) = with_rules-eq-ok threshold version loaded m h in
    let own = load_rules-own (field k v fs) Intent.members j default_matrix rules p in
    (
      ap (λ (n : AutonomyMatrix). n.rules j) e ∙ (own ∙ rw (members-listed j)),
      ap (λ (n : AutonomyMatrix). n.confidence_threshold) e,
      ap (λ (n : AutonomyMatrix). n.version) e,
    )

-- An entry whose exception no handler catches: its action is known and its tools cannot be
-- iterated over.
abbrev Crashes : Option Json → Type 0
Crashes (some (obj spec)) = read_rule spec ≡ err type_error
Crashes _ = ⊥

load_entry-fails :
    (i : Intent) (rules : Rules) (e : Option Json)
    → Crashes e
    → load_entry e i rules ≡ err type_error
unfolding load_entry
load_entry-fails i rules none h = absurd h
load_entry-fails i rules (some (obj spec)) h = rw h refl
load_entry-fails i rules (some _) h = absurd h

keep_rule-total :
    (i : Intent) (rules : Rules) (r : Result PyError IntentRule)
    → ((rules' : Rules) × (keep_rule i rules r ≡ ok rules'))
      ⊎ (keep_rule i rules r ≡ err type_error)
unfolding keep_rule
keep_rule-total i rules (ok r) = inl (set_rule i r rules, refl)
keep_rule-total i rules (err key_error) = inl (rules, refl)
keep_rule-total i rules (err value_error) = inl (rules, refl)
keep_rule-total i rules (err type_error) = inr refl

-- No exception but `TypeError` comes out of an entry.
load_entry-total :
    (i : Intent) (rules : Rules) (e : Option Json)
    → ((rules' : Rules) × (load_entry e i rules ≡ ok rules'))
      ⊎ (load_entry e i rules ≡ err type_error)
unfolding load_entry
load_entry-total i rules none = inl (rules, refl)
load_entry-total i rules (some (obj spec)) = keep_rule-total i rules (read_rule spec)
load_entry-total i rules (some _) = inl (rules, refl)

crash_later :
    (i j : Intent) (is : List Intent) (rules mid : Rules) (json : Fields)
    → listed j (i ∷ is) ≡ true
    → Crashes (get_field (Intent.value j) json)
    → load_entry (get_field (Intent.value i) json) i rules ≡ ok mid
    → listed j is ≡ true
crash_later i j is rules mid json l c e = elim (Bool-cases (same i j)) [
  | inl same_one ↦
      let k : i ≡ j = same-eq i j same_one in
      let c' : Crashes (get_field (Intent.value i) json) =
        subst (λ n. Crashes (get_field (Intent.value n) json)) (sym k) c in
      cc (load_entry-fails i rules (get_field (Intent.value i) json) c', e)
  | inr other ↦ rw other at l
]

load_rules-fails :
    (json : Fields) (is : List Intent) (j : Intent) (rules : Rules)
    → listed j is ≡ true
    → Crashes (get_field (Intent.value j) json)
    → load_rules json is rules ≡ err type_error
unfolding load_rules load_rule
load_rules-fails json [] j rules l c = cc
load_rules-fails json (i ∷ is) j rules l c =
    elim (load_entry-total i rules (get_field (Intent.value i) json)) [
      | inl (mid, e) ↦
          rw e (load_rules-fails json is j mid (crash_later i j is rules mid json l c e) c)
      | inr e ↦ rw e
    ]

read_rule-fails :
    (spec : Fields) (name : String) (kind : AgentActionKind) (tools : Json)
    → get_field "autonomous" spec ≡ some (str name)
    → action_kind name ≡ some kind
    → get_field "allowed_tools" spec ≡ some tools
    → tuple_of tools ≡ err type_error
    → read_rule spec ≡ err type_error
unfolding read_rule
read_rule-fails spec name kind tools a k t u = ground arith

-- A stored policy in which the entry of any intent has a known action and tools over which Python
-- cannot iterate makes the loading raise `TypeError`: it falls back neither to the built-in rule
-- of that intent nor to the built-in matrix.
pub from_policy-crash :
    (threshold : ℕ) (version k : String) (v : Json) (fs : Fields) (j : Intent) (spec : Fields)
    (name : String) (kind : AgentActionKind) (tools : Json)
    → get_field (Intent.value j) (field k v fs) ≡ some (obj spec)
    → get_field "autonomous" spec ≡ some (str name)
    → action_kind name ≡ some kind
    → get_field "allowed_tools" spec ≡ some tools
    → tuple_of tools ≡ err type_error
    → from_policy threshold version (some (field k v fs)) ≡ err type_error
unfolding from_policy
from_policy-crash threshold version k v fs j spec name kind tools own a b t u =
    let c : Crashes (get_field (Intent.value j) (field k v fs)) =
      rw own (read_rule-fails spec name kind tools a b t u) in
    rw (load_rules-fails (field k v fs) Intent.members j default_matrix (members-listed j) c) refl
