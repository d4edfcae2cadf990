-- ===== src/Sessions/Laws/Ending.antt =====
-- What an answer of the user does to the fields of an order that are missing.
pub mod Dialogue
use kb_concierge.Prelude.{
  ℕ, suc, ◌≤◌, ◌<◌, String, ◌≡◌, refl, sym, ap, ◌∙◌, subst, ◌⊎◌, inl, inr, Bool, true, false,
  Bool-cases, Option-cases, Option, none, some, List, [], ◌∷◌, length, keep, if◌then◌else◌, str_eq,
  eq_iff, non_empty, arith, Dict, lookup, insert, lookup-insert, any, not, ◌&&◌, All,
}
use kb_concierge.Prelude.Search.{Among}
use kb_concierge.Orders.{answered, missing_of, missing_fields, extract_fields, required_keys}
use kb_concierge.Policy.Kinds.{AgentActionKind, handoff, answer, tool_call, clarify}
use kb_concierge.Reasoning.Calls.{ToolContext}
use kb_concierge.Sessions.Model.{FlowState, order, OrderDraft}
use kb_concierge.Sessions.State.{Desk, St, run_loop}
use kb_concierge.Sessions.Switch.{detect_category_switch}
use kb_concierge.Sessions.Prefs.{merge_prefs, fill, copy}
use kb_concierge.Sessions.Order.{
  draft_of, set_defaults, set_asked, collected, ask_again, next_question, collect_order, switched,
  offer_order, order_step, interrupt_order, route_order_flow,
}
use kb_concierge.Sessions.Laws.Gates.{offer_order-flow}

-- What is answered stays answered.
abbrev Keeps : Dict String → Dict String → Type 0
Keeps a b = (k : String) → answered a k ≡ true → answered b k ≡ true

-- A new key, or a text that is not empty, leaves the answers.
insert-Keeps : (j v : String) (a : Dict String) → answered a j ≡ false → Keeps a (insert j v a)
unfolding answered
insert-Keeps j v a new k h = ground (arith, lookup-insert j k v a, eq_iff j k)

insert-answered :
    (j v : String) (a : Dict String) → non_empty v ≡ true → answered (insert j v a) j ≡ true
unfolding answered
insert-answered j v a h = ground (arith, lookup-insert j j v a, eq_iff j j)

missing_of-answered :
    (a : Dict String) (k : String) (keys : List String)
    → answered a k ≡ true
    → missing_of (k ∷ keys) a ≡ missing_of keys a
unfolding missing_of
missing_of-answered a k keys e = ground arith

missing_of-unanswered :
    (a : Dict String) (k : String) (keys : List String)
    → answered a k ≡ false
    → missing_of (k ∷ keys) a ≡ k ∷ missing_of keys a
unfolding missing_of
missing_of-unanswered a k keys e = ground arith

module _ (a b : Dict String) where
  none-Among : (k : String) → Among k (missing_of [] a) → ⊥
  unfolding missing_of
  none-Among k h = h

  missing_of-le :
      (keys : List String) → Keeps a b → length (missing_of keys b) ≤ length (missing_of keys a)
  unfolding missing_of
  missing_of-le [] h = omega arith
  missing_of-le (k ∷ keys) h = ground (arith, missing_of-le keys h, h k)

  -- A key that was missing first, or a later one.
  fewer :
      (j : String) (keys : List String) (k : String)
      → Keeps a b
      → answered a j ≡ false
      → (k ≡ j) ⊎ (length (missing_of keys b) < length (missing_of keys a))
      → answered b k ≡ true
      → length (missing_of (j ∷ keys) b) < length (missing_of (j ∷ keys) a)
  fewer j keys k h e (inl same) now = rw (missing_of-unanswered a j keys e) (
      rw (missing_of-answered b j keys (subst (λ x. answered b x ≡ true) same now))
        (omega (arith, missing_of-le keys h)))
  fewer j keys k h e (inr less) now =
      rw (missing_of-unanswered a j keys e) (elim (Bool-cases (answered b j)) [
        | inl f ↦ rw (missing_of-answered b j keys f) (omega (arith, less))
        | inr f ↦ rw (missing_of-unanswered b j keys f) (omega (arith, less))
      ])

  missing_of-lt :
      (keys : List String) (k : String)
      → Keeps a b
      → Among k (missing_of keys a)
      → answered b k ≡ true
      → length (missing_of keys b) < length (missing_of keys a)
  missing_of-lt [] k h among now = absurd (none-Among k among)
  missing_of-lt (j ∷ keys) k h among now = elim (Bool-cases (answered a j)) [
    | inl e ↦ rw (missing_of-answered a j keys e) (
        rw (missing_of-answered b j keys (h j e)) (
          missing_of-lt keys k h (subst (λ l. Among k l) (missing_of-answered a j keys e) among)
            now))
    | inr e ↦
        fewer j keys k h e
          (elim (subst (λ l. Among k l) (missing_of-unanswered a j keys e) among) [
            | inl same ↦ inl same
            | inr later ↦ inr (missing_of-lt keys k h later now)
          ])
          now
  ]

copy-Keeps :
    (j : String) (stored a : Dict String) → answered a j ≡ false → Keeps a (copy j stored a)
copy-Keeps j stored a new k h = elim (Option-cases (lookup j stored)) [
  | inl e ↦ rw (e, copy) h
  | inr e ↦ rw (e.1, copy) (insert-Keeps j e.0 a new k h)
]

fill-Keeps :
    (keys : List String) (stored : Dict String) (ks : List String) (a : Dict String)
    → Keeps a (fill keys stored ks a)
unfolding fill
fill-Keeps keys stored [] a k h = h
fill-Keeps keys stored (j ∷ ks) a k h =
    elim (Bool-cases (any (str_eq j) keys && (not (answered a j) && answered stored j))) [
      | inl e ↦
          rw e (
            fill-Keeps keys stored ks (copy j stored a) k
              (copy-Keeps j stored a (ground arith) k h))
      | inr e ↦ rw e (fill-Keeps keys stored ks a k h)
    ]

merge_prefs-Keeps :
    (st : St) (category : String) (a : Dict String) → Keeps a (merge_prefs st category a)
unfolding merge_prefs
merge_prefs-Keeps st category a k h = elim (Option-cases st.session.user_id) [
  | inl e ↦ rw e h
  | inr e ↦ rw e.1 (fill-Keeps (required_keys category) _ _ a k h)
]

module _ (desk : Desk) where
  set_defaults-Keeps : (found a : Dict String) → Keeps a (set_defaults desk found a)
  unfolding set_defaults answered
  set_defaults-Keeps [] a k h = h
  set_defaults-Keeps ((j, v) ∷ found) a k h = elim (Option-cases (lookup j a)) [
    | inl e ↦
        rw e (
          set_defaults-Keeps found (insert j v a) k
            (insert-Keeps j v a (rw (e, answered) refl) k h))
    | inr e ↦ rw e.1 (set_defaults-Keeps found a k h)
  ]

  set_asked-Keeps :
      (asking : Option String) (masked : String) (a : Dict String)
      → Keeps a (set_asked desk asking masked a)
  unfolding set_asked
  set_asked-Keeps none masked a k h = h
  set_asked-Keeps (some j) masked a k h = elim (Bool-cases (answered a j)) [
    | inl e ↦ rw e h
    | inr e ↦ rw e (insert-Keeps j masked a e k h)
  ]

  set_asked-answered :
      (j masked : String) (a : Dict String)
      → non_empty masked ≡ true
      → answered (set_asked desk (some j) masked a) j ≡ true
  unfolding set_asked
  set_asked-answered j masked a h = elim (Bool-cases (answered a j)) [
    | inl e ↦ rw e e
    | inr e ↦ rw e (insert-answered j masked a h)
  ]

  collected-Keeps :
      (d : OrderDraft) (asking : Option String) (masked : String) (st : St)
      → Keeps d.answers (collected desk d asking masked st)
  unfolding collected
  collected-Keeps d asking masked st k h =
      merge_prefs-Keeps st d.category _ k
        (set_asked-Keeps asking masked _ k (set_defaults-Keeps _ d.answers k h))

  collected-answered :
      (d : OrderDraft) (j masked : String) (st : St)
      → non_empty masked ≡ true
      → answered (collected desk d (some j) masked st) j ≡ true
  unfolding collected
  collected-answered d j masked st h =
      merge_prefs-Keeps st d.category _ j (set_asked-answered j masked _ h)
