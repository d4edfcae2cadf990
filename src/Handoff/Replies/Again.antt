-- ===== src/Handoff/Replies/Again.antt =====
-- A reply of an operator that is sent again.
use kb_concierge.Prelude.{
  String, ◌≡◌, refl, sym, ap, subst, Option, none, some, List, [], ◌∷◌, ◌++◌, arith, eq_iff, lookup,
  Bool-cases, inl, inr,
}
use kb_concierge.Sessions.Model.{AgentSession, AgentTurn, TurnRole, HandoffRecord, Db}
use kb_concierge.Sessions.Access.{Principal}
use kb_concierge.Handoff.{Answer, done, refused, latest_open, of_session}
use kb_concierge.Handoff.Replies.{
  Incoming, operator_reply, turn_by_idempotency_key, accept_reply, incoming_turn, first_with,
  has_key, reply_to,
}

first_with-append :
    (sid k : String) (ts : List AgentTurn) (t : AgentTurn)
    → first_with sid k ts ≡ none
    → first_with sid k (t ∷ []) ≡ some t
    → first_with sid k (ts ++ t ∷ []) ≡ some t
unfolding first_with
first_with-append sid k [] t h e = e
first_with-append sid k (u ∷ ts) t h e = elim (Bool-cases (has_key sid k u)) [
  | inl b ↦ cc (h, b)
  | inr b ↦ ground (arith, h, b, first_with-append sid k ts t)
]

new-first :
    (sid k : String) (m : Incoming)
    → m.idempotency_key ≡ some k
    → first_with sid k (incoming_turn sid TurnRole.operator m ∷ [])
      ≡ some (incoming_turn sid TurnRole.operator m)
unfolding first_with has_key of_session incoming_turn
new-first sid k m h = ground (arith, eq_iff sid sid, eq_iff k k, h)

result_of {ℓ} : {A : Type ℓ} → A → Answer A → A
result_of d (refused r) = d
result_of d (done a) = a

module _ (p : Principal) (sid k : String) (m : Incoming) (key : m.idempotency_key ≡ some k) where
  accepted-first :
      (h : HandoffRecord) (db : Db)
      → first_with sid k db.turns ≡ none
      → first_with sid k (accept_reply p sid h m db).1.turns ≡ some (accept_reply p sid h m db).0
  unfolding accept_reply
  accepted-first h db e =
      first_with-append sid k db.turns (incoming_turn sid TurnRole.operator m) e
        (new-first sid k m key)

  -- The reply is found again in the store that it left.
  FoundAgain : Db → AgentTurn × Db → Type 0
  FoundAgain db'' r =
      reply_to p sid (lookup sid r.1.sessions) (latest_open sid r.1.handoffs)
        (first_with sid k r.1.turns) m db''
      ≡ done (r.0, db'')

  accepted-again :
      (s : AgentSession) (h : HandoffRecord) (db db'' : Db)
      → first_with sid k db.turns ≡ none
      → lookup sid db.sessions ≡ some s
      → latest_open sid db.handoffs ≡ some h
      → FoundAgain db'' (accept_reply p sid h m db)
  unfolding FoundAgain accept_reply reply_to
  accepted-again s h db db'' f a b = rw (accepted-first h db f) (rw a (rw b refl))

  known-again :
      (s : AgentSession) (h : HandoffRecord) (u : AgentTurn) (db db'' : Db)
      → first_with sid k db.turns ≡ some u
      → lookup sid db.sessions ≡ some s
      → latest_open sid db.handoffs ≡ some h
      → FoundAgain db'' (u, db)
  unfolding FoundAgain reply_to
  known-again s h u db db'' f a b = rw f (rw a (rw b refl))

  reply_to-found :
      (s : Option AgentSession) (h : Option HandoffRecord) (e : Option AgentTurn) (db db'' : Db)
      (r : AgentTurn × Db)
      → first_with sid k db.turns ≡ e
      → lookup sid db.sessions ≡ s
      → latest_open sid db.handoffs ≡ h
      → reply_to p sid s h e m db ≡ done r
      → FoundAgain db'' r
  unfolding reply_to result_of accept_reply
  reply_to-found none h e db db'' r f a b q = cc
  reply_to-found (some s) none e db db'' r f a b q = cc
  reply_to-found (some s) (some h) (some u) db db'' r f a b q =
      subst (FoundAgain db'') (ap (result_of r) q) (known-again s h u db db'' f a b)
  reply_to-found (some s) (some h) none db db'' r f a b q =
      subst (FoundAgain db'') (ap (result_of r) q) (accepted-again s h db db'' f a b)

  -- A reply with a key is idempotent: the same reply, sent to the store that it left, gives the
  -- same turn and leaves that store as it is.
  pub operator_reply-again :
      (db db' : Db) (t : AgentTurn)
      → operator_reply p sid m db ≡ done (t, db')
      → operator_reply p sid m db' ≡ done (t, db')
  unfolding operator_reply turn_by_idempotency_key FoundAgain
  operator_reply-again db db' t h =
      subst
        (λ key'.
          reply_to p sid (lookup sid db'.sessions) (latest_open sid db'.handoffs)
            (turn_by_idempotency_key db' sid key') m db'
          ≡ done (t, db'))
        (sym key)
        (reply_to-found (lookup sid db.sessions) (latest_open sid db.handoffs) _ db db' (t, db')
          refl refl refl
          (subst
            (λ key'.
              reply_to p sid (lookup sid db.sessions) (latest_open sid db.handoffs)
                (turn_by_idempotency_key db sid key') m db
              ≡ done (t, db'))
            key h))
