-- ===== src/Outbox/Delivery.antt =====
-- How often an event is tried, and what a batch counts.
use kb_concierge.Prelude.{
  String, ◌≤◌, leb, true, ◌⊎◌, ℕ, suc, ◌+◌, ◌<◌, ◌≡◌, refl, inl, inr, false, List, [], ◌∷◌, arith,
  if◌then◌else◌, Bool-cases, length,
}
use kb_concierge.Outbox.{
  Event, OutboxStatus, pending, processing, delivered, failed, Settings, waits, claimable, claimed,
  mark_done, mark_failed_or_retry, Delivered, accepted, not_accepted, crashed, settle_event,
  Counters, process_outbox_batch, count_status,
}

-- A worker passes at a time and takes the event if it may be claimed, and what becomes of the
-- delivery; a worker that dies leaves the event claimed.
pub data Pass : Type 0 where
  finished : ℕ → Delivered → Pass
  died : ℕ → Pass

pub pass : Settings → Pass → Event → Event
pass s (finished now d) e = if claimable now e then settle_event s now d (claimed s now e) else e
pass s (died now) e = if claimable now e then claimed s now e else e

-- Workers that pass one after the other.
pub passes : Settings → List Pass → Event → Event
passes s [] e = e
passes s (p ∷ ps) e = passes s ps (pass s p e)

-- An event that was delivered or given up stays as it is.
pub pass-final : (s : Settings) (p : Pass) (e : Event) → waits e.status ≡ false → pass s p e ≡ e
unfolding pass claimable
pass-final s (finished now d) e h = rw h refl
pass-final s (died now) e h = rw h refl

passes-final :
    (s : Settings) (ps : List Pass) (e : Event) → waits e.status ≡ false → passes s ps e ≡ e
unfolding passes
passes-final s [] e h = refl
passes-final s (p ∷ ps) e h = rw (pass-final s p e h) (passes-final s ps e h)

-- What becomes of an event after a try, whatever workers `ps` pass later: it was delivered, and
-- stays so; it was tried as often as the limit says or more, is given up, and stays so; or it was
-- tried fewer times, and waits for another try.
abbrev pub IsSettled : Settings → Delivered → List Pass → Event → Type 0
IsSettled s d ps e =
    ((d ≡ accepted) × (e.status ≡ delivered) × (passes s ps e ≡ e))
    ⊎ (((¬ (d ≡ accepted))
          × (e.status ≡ failed)
          × (s.max_attempts ≤ e.attempts)
          × (passes s ps e ≡ e))
        ⊎ ((¬ (d ≡ accepted)) × (e.status ≡ pending) × (e.attempts < s.max_attempts)))

mark_failed_or_retry-IsSettled :
    (s : Settings) (error : String) (now at : ℕ) (d : Delivered) (ps : List Pass) (e : Event)
    → ¬ (d ≡ accepted)
    → IsSettled s d ps (mark_failed_or_retry error now s.max_attempts at e)
unfolding mark_failed_or_retry
mark_failed_or_retry-IsSettled s error now at d ps e h =
    elim (Bool-cases (leb s.max_attempts e.attempts)) [
      | inl b ↦ rw b (inr (inl (h, refl, ground (arith, b), passes-final s ps _ refl)))
      | inr b ↦ rw b (inr (inr (h, refl, ground (arith, b))))
    ]

settle_event-IsSettled :
    (s : Settings) (now : ℕ) (d : Delivered) (ps : List Pass) (e : Event)
    → IsSettled s d ps (settle_event s now d e)
unfolding settle_event mark_done
settle_event-IsSettled s now accepted ps e = inl (refl, refl, passes-final s ps _ refl)
settle_event-IsSettled s now not_accepted ps e =
    mark_failed_or_retry-IsSettled s "non-2xx response" now _ not_accepted ps e (λ h. cc (h))
settle_event-IsSettled s now (crashed x) ps e =
    mark_failed_or_retry-IsSettled s x now _ (crashed x) ps e (λ h. cc (h))

settle_event-attempts :
    (s : Settings) (now : ℕ) (d : Delivered) (e : Event)
    → (settle_event s now d (claimed s now e)).attempts ≡ e.attempts + 1
unfolding settle_event mark_done mark_failed_or_retry claimed
settle_event-attempts s now accepted e = refl
settle_event-attempts s now not_accepted e = ground arith
settle_event-attempts s now (crashed x) e = ground arith

-- Workers pass one after the other, none outlasting the visibility timeout. A worker that takes an
-- event and ends its try then settles it, whatever workers pass later: an event whose delivery
-- succeeded is delivered, and stays so; one whose delivery failed is given up, and stays so, if it
-- was tried as often as the limit says or more, this try included, and else waits for another.
pub pass-IsSettled :
    (s : Settings) (now : ℕ) (d : Delivered) (ps : List Pass) (e : Event)
    → claimable now e ≡ true
    → ((pass s (finished now d) e).attempts ≡ e.attempts + 1)
      × IsSettled s d ps (pass s (finished now d) e)
unfolding pass
pass-IsSettled s now d ps e h =
    rw h (settle_event-attempts s now d e, settle_event-IsSettled s now d ps (claimed s now e))

-- While a worker holds an event, no other takes it before the visibility timeout has passed.
pub claimed-held :
    (s : Settings) (now later : ℕ) (e : Event)
    → later < now + s.visibility_timeout
    → claimable later (claimed s now e) ≡ false
unfolding claimable claimed
claimed-held s now later e h = ground (arith, h)

-- The claimed events are those sent, to be retried and given up.
abbrev AddsUp : ℕ → Counters → Type 0
AddsUp n c = (c.claimed_count ≡ n) × (c.claimed_count ≡ c.sent + (c.retried + c.failed_count))

count_status-AddsUp :
    (st : OutboxStatus) (n : ℕ) (c : Counters) → AddsUp n c → AddsUp (suc n) (count_status st c)
count_status-AddsUp pending n c (a, b) = (omega arith, omega arith)
count_status-AddsUp processing n c (a, b) = (omega arith, omega arith)
count_status-AddsUp delivered n c (a, b) = (omega arith, omega arith)
count_status-AddsUp failed n c (a, b) = (omega arith, omega arith)

-- The counters of a batch add up: each event that was claimed was sent, is to be retried, or was
-- given up, and all that were given to the batch are counted.
pub process_outbox_batch-counts :
    (s : Settings) (now : ℕ) (deliver : Event → Delivered) (es : List Event)
    → let (c, es') = process_outbox_batch s now deliver es in
      (c.claimed_count ≡ length es) × (c.claimed_count ≡ c.sent + (c.retried + c.failed_count))
unfolding process_outbox_batch
process_outbox_batch-counts s now deliver [] = (refl, refl)
process_outbox_batch-counts s now deliver (e ∷ es) =
    count_status-AddsUp _ (length es) _ (process_outbox_batch-counts s now deliver es)
