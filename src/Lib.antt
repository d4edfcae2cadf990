-- ===== src/Lib.antt =====
-- The concierge agent: a dialogue service that answers questions, collects and places orders with
-- partner services, and hands a dialogue over to a person.
--
-- A message arrives at `SessionService.post_message`. An accident is answered first; then a
-- proposal that waits for consent, then an order whose fields are being collected; a fresh message
-- is classified, decided on by the policy, and run by the reasoning loop, which alone calls tools.
-- A decision to hand over opens a ticket. Beside this stand the stored policies, the clients of the
-- neighbouring services, the limiter, the outbox, the ledger of outcomes and the onboarding guide.
--
-- Which file models what; paths are below backend/src/api:
--   Prelude               shared names; Python's dicts, texts, truth and JSON values
--   Intent                intent/: Keywords, Scores, Slots and Engine (engine.py, service.py), Yandex
--                         (yandexgpt.py, the language model)
--   Policy                policy/: Signals, Matrix, Engine, Guardrails, Store, each by its file's
--                         functions; Safety, Loading, Wrap, Active: proofs
--   Reasoning             reasoning/loop.py: Calls (the log of calls), Answers, Writes, Context,
--                         Replies, Loop (`run`); Detect: confirmation.py and feedback.py; Traced,
--                         Bounded, Consent: proofs
--   Orders, Emergency     orders/ and emergency/playbook.py
--   Sessions              sessions/: Model (rows), Access, State (what one message works on),
--                         Switch, Prefs, Order, Fresh, Resolve, Accident (the branches), Post (the
--                         requests on the store); Dialogue: an abstract machine; Laws: proofs
--   Handoff               handoff/
--   Clients               clients/: Breaker, Retry, Request, Cache
--   Onboarding, RateLimit, Ledger, Outbox
--                         onboarding/, sessions/ratelimit.py, ledger/, webhooks/; in Onboarding,
--                         Platform reads the status and Surface serves the guide
--   Services              clients/*/adapter.py with tools/: Partners, Support, Knowledge (search and
--                         chat), Platform, Tariffs; Tokens: clients/auth.py and oauth.py; Registry:
--                         reasoning/dependencies.py, which makes a loop's environment of them all
--   Auth                  auth/: the bearer token of a request, the signing keys, the principal
--   Tests                 runs on concrete inputs
--
-- State is passed explicitly: a computation of the loop takes the log of the tool calls made so far
-- and gives a result with the longer log; a branch of a message takes and gives a state of session,
-- turn, notes, preferences, events and log; a request takes and gives the tables. A transaction that
-- fails gives no tables, and so changes none. Row locks make a request one step. The try of an event
-- of the outbox is one step too: it is taken to end within the visibility timeout.
--
-- Parameters are what stands outside: what the HTTP client gives for a request (by all calls so far),
-- the masking of personal data, the regular expressions of the orders, the texts of configuration
-- files, how Python prints and reads values, and the clock. The loop takes its tools as a parameter,
-- `Env`, and Registry builds it of the adapters. The patterns of the rules run on a backtracking
-- search, Prelude/Regex, where a digit is an ASCII one and a letter a Latin or a Russian one.
-- Confidence is counted in ten-thousandths and time in milliseconds; a token of the limiter is 60000
-- parts, so that its refill is exact. No model uses fuel: loops recurse on their data, the
-- repeats of a request on the number that is left, and the sweep of the ledger on its limit.
--
-- Not modelled: the HTTP layer and SQL, metrics, the loading of configuration files, and the order
-- and limit of the query of the outbox.
pub mod Prelude
pub mod Intent
pub mod Policy
pub mod Reasoning
pub mod Orders
pub mod Emergency
pub mod Onboarding
pub mod RateLimit
pub mod Ledger
pub mod Outbox
pub mod Clients
pub mod Handoff
pub mod Sessions
pub mod Auth
pub mod Services
pub mod Tests
