-- ===== src/Sessions/Post/Owned/Forget.antt =====
-- The right to be forgotten.
use kb_concierge.Prelude.{
  ◌∙◌, ℕ, String, Bool, ◌≡◌, refl, Option, none, some, List, [], ◌∷◌, arith, str_eq, eq_iff, lookup,
  lookup-insert, Bool-cases, ◌⊎◌, inl, inr, subst, sym,
}
use kb_concierge.Reasoning.Calls.{Log}
use kb_concierge.Sessions.Model.{AgentSession, AgentTurn, Db, forgotten}
use kb_concierge.Sessions.Access.{Principal, can_access}
use kb_concierge.Sessions.State.{Desk}
use kb_concierge.Sessions.Post.{Message, post_message, post_by, post_to}
use kb_concierge.Sessions.Post.Owned.{
  forget_session, forget_found, forgotten_db, forgotten_row, anonymize_turns, anonymize,
}
use kb_concierge.Handoff.{Answer, done, refused, conflict, not_found}

-- A turn after the session was forgotten, from the one before: with the mask that it had, and that
-- alone, if it is of the session, and else the same.
pub IsMaskedFrom : String → AgentTurn → AgentTurn → Type 0
IsMaskedFrom sid old new =
    (new.session_id ≡ old.session_id)
    × (new.content_masked ≡ old.content_masked)
    × (((old.session_id ≡ sid) × (new.content ≡ old.content_masked))
        ⊎ ((¬ (old.session_id ≡ sid)) × (new ≡ old)))

-- Two lists of turns, one by one.
pub Pairwise : (AgentTurn → AgentTurn → Type 0) → List AgentTurn → List AgentTurn → Type 0
Pairwise R [] [] = Unit
Pairwise R [] (u ∷ us) = ⊥
Pairwise R (t ∷ ts) [] = ⊥
Pairwise R (t ∷ ts) (u ∷ us) = R t u × Pairwise R ts us

anonymize-IsMaskedFrom : (sid : String) (t : AgentTurn) → IsMaskedFrom sid t (anonymize sid t)
unfolding anonymize IsMaskedFrom
anonymize-IsMaskedFrom sid t = elim (Bool-cases (str_eq t.session_id sid)) [
  | inl b ↦ rw b (refl, refl, inl (ground (arith, b, eq_iff t.session_id sid), refl))
  | inr b ↦ rw b (refl, refl, inr ((λ e. ground (arith, b, e, eq_iff t.session_id sid)), refl))
]

anonymize_turns-Pairwise :
    (sid : String) (ts : List AgentTurn) → Pairwise (IsMaskedFrom sid) ts (anonymize_turns sid ts)
unfolding anonymize_turns Pairwise
anonymize_turns-Pairwise sid [] = tt
anonymize_turns-Pairwise sid (t ∷ ts) =
    (anonymize-IsMaskedFrom sid t, anonymize_turns-Pairwise sid ts)

-- A store after a session was forgotten, from the one before: the turns of the session have the
-- masks that they had and no other text, those of other sessions are as they were, and the row of
-- the session says that it is forgotten and has no summary.
pub IsForgotten : String → Db → Db → Type 0
IsForgotten sid db db' =
    Pairwise (IsMaskedFrom sid) db.turns db'.turns
    × ((s : AgentSession) × (lookup sid db'.sessions ≡ some s)
        × (s.status ≡ forgotten)
        × (s.summary ≡ none))

Holds : (Db → Type 0) → Answer Db → Type 0
Holds P (refused r) = Unit
Holds P (done db) = P db

module _ (p : Principal) (sid : String) (corr : Option String) (now : ℕ) (db : Db) where
  row-forgotten :
      (session : AgentSession)
      → ((forgotten_row session now).status ≡ forgotten)
        × ((forgotten_row session now).summary ≡ none)
  unfolding forgotten_row
  row-forgotten session = (refl, refl)

  forgotten_db-IsForgotten :
      (session : AgentSession) → IsForgotten sid db (forgotten_db p session sid corr now db)
  unfolding forgotten_db IsForgotten
  forgotten_db-IsForgotten session = (
    anonymize_turns-Pairwise sid db.turns,
    (
      forgotten_row session now,
      ground (arith, eq_iff sid sid, lookup-insert sid sid (forgotten_row session now) db.sessions),
      (row-forgotten session).0,
      (row-forgotten session).1,
    ),
  )

  forget_found-IsForgotten :
      (found : Option AgentSession)
      → Holds (IsForgotten sid db) (forget_found p found sid corr now db)
  unfolding forget_found Holds
  forget_found-IsForgotten none = tt
  forget_found-IsForgotten (some session) = elim (Bool-cases (can_access p session)) [
    | inl h ↦ rw h (forgotten_db-IsForgotten session)
    | inr h ↦ rw h tt
  ]

  -- If a session is forgotten with success, then in the store that this leaves each turn of it has
  -- the masked text that it had before and no other, the turns of other sessions are as they were,
  -- and the row of the session says that it is forgotten and has no summary.
  pub forget_session-IsForgotten :
      (db' : Db) → forget_session p sid corr now db ≡ done db' → IsForgotten sid db db'
  unfolding forget_session Holds
  forget_session-IsForgotten db' h =
      subst (Holds (IsForgotten sid db)) h (forget_found-IsForgotten (lookup sid db.sessions))

  forgotten-refuses :
      (db'' : Db) (s : AgentSession)
      → lookup sid db''.sessions ≡ some s
      → s.status ≡ forgotten
      → (desk : Desk) (emit : Bool) (m : Message) (log : Log) → m.session_id ≡ sid
      → (post_message desk emit m db'' log ≡ (refused conflict, log))
        ⊎ (post_message desk emit m db'' log ≡ (refused not_found, log))
  unfolding post_message post_to post_by
  forgotten-refuses db'' s found is_gone desk emit m log e =
      let at_m = subst (λ i. lookup i db''.sessions ≡ some s) (sym e) found in
      elim (Bool-cases (can_access m.principal s)) [
        | inl a ↦ inl (rw at_m (rw a (rw is_gone refl)))
        | inr a ↦ inr (rw at_m (rw a refl))
      ]

  -- After a session was forgotten, and as long as the table has the row that this left for it, the
  -- session takes no message: whoever sends one, the request is refused, which changes no table,
  -- and nothing is called.
  pub forget_session-final :
      (db' db'' : Db)
      → forget_session p sid corr now db ≡ done db'
      → lookup sid db''.sessions ≡ lookup sid db'.sessions
      → (desk : Desk) (emit : Bool) (m : Message) (log : Log) → m.session_id ≡ sid
      → (post_message desk emit m db'' log ≡ (refused conflict, log))
        ⊎ (post_message desk emit m db'' log ≡ (refused not_found, log))
  unfolding IsForgotten
  forget_session-final db' db'' h same desk emit m log e =
      let gone = (forget_session-IsForgotten db' h).1 in
      forgotten-refuses db'' gone.0 (same ∙ gone.1) gone.2 desk emit m log e
