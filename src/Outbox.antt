-- ===== src/Outbox.antt =====
-- backend/src/api/webhooks/{repository,dispatcher}.py: the delivery of one event of the outbox. The
-- row locks make the claim of an event one step. Times are in milliseconds.
pub mod Delivery
use kb_concierge.Prelude.{
  ℕ, ◌+◌, ◌-◌, ◌*◌, ◌^◌, String, Bool, true, false, ◌&&◌, ◌||◌, Option, none, some, List, [], ◌∷◌,
  if◌then◌else◌, leb,
}

pub data OutboxStatus : Type 0 where
  pending processing delivered failed : OutboxStatus

pub record Event : Type 0 where
  pub event_type : String
  pub status : OutboxStatus
  pub attempts : ℕ
  pub available_at : ℕ
  pub processed_at : Option ℕ
  pub last_error : Option String

-- The settings of the outbox.
pub record Settings : Type 0 where
  pub visibility_timeout : ℕ
  pub retry_base : ℕ
  pub max_attempts : ℕ

abbrev pub waits : OutboxStatus → Bool
waits pending = true
waits processing = true
waits delivered = false
waits failed = false

-- The condition of `claim_batch`.
unfoldable pub claimable : ℕ → Event → Bool
claimable now e = waits e.status && leb e.available_at now

-- What `claim_batch` does to a row.
unfoldable pub claimed : Settings → ℕ → Event → Event
claimed s now e = record e {
  status = processing;
  attempts = e.attempts + 1;
  available_at = now + s.visibility_timeout;
}

unfoldable pub mark_done : ℕ → Event → Event
mark_done now e = record e { status = delivered; processed_at = some now }

unfoldable pub mark_failed_or_retry : String → ℕ → ℕ → ℕ → Event → Event
mark_failed_or_retry error now max_attempts retry_at e =
    if leb max_attempts e.attempts
    then record e { last_error = some error; status = failed; processed_at = some now }
    else record e { last_error = some error; status = pending; available_at = retry_at }

-- What the deliverer gives: success, a refusal, or an exception with its text.
pub data Delivered : Type 0 where
  accepted not_accepted : Delivered
  crashed : String → Delivered

-- The body of the loop of `process_outbox_batch`, on a claimed event.
unfoldable pub settle_event : Settings → ℕ → Delivered → Event → Event
settle_event s now accepted e = mark_done now e
settle_event s now not_accepted e =
    mark_failed_or_retry "non-2xx response" now s.max_attempts
      (now + s.retry_base * 2 ^ (e.attempts - 1)) e
settle_event s now (crashed error) e =
    mark_failed_or_retry error now s.max_attempts (now + s.retry_base * 2 ^ (e.attempts - 1)) e

-- The counters of a batch.
pub record Counters : Type 0 where
  pub claimed_count : ℕ
  pub sent : ℕ
  pub retried : ℕ
  pub failed_count : ℕ

abbrev pub no_counts : Counters
no_counts = record { claimed_count = 0; sent = 0; retried = 0; failed_count = 0 }

abbrev pub count_status : OutboxStatus → Counters → Counters
count_status delivered c = record c { claimed_count = c.claimed_count + 1; sent = c.sent + 1 }
count_status failed c = record c {
  claimed_count = c.claimed_count + 1;
  failed_count = c.failed_count + 1;
}
count_status _ c = record c { claimed_count = c.claimed_count + 1; retried = c.retried + 1 }

-- `process_outbox_batch` on the events that the query of `claim_batch` gave; `deliver` is what
-- became of each.
unfoldable pub process_outbox_batch :
    Settings → ℕ → (Event → Delivered) → List Event → Counters × List Event
process_outbox_batch s now deliver [] = (no_counts, [])
process_outbox_batch s now deliver (e ∷ es) =
    let (c, rest) = process_outbox_batch s now deliver es in
    let e' = claimed s now e in
    let e'' = settle_event s now (deliver e') e' in (count_status e''.status c, e'' ∷ rest)
