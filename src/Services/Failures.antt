-- ===== src/Services/Failures.antt =====
-- Exchanges that carry no result.
use kb_concierge.Prelude.{◌≤◌, String, ◌≡◌, ◌⊎◌, none, some, arith}
use kb_concierge.Services.{
  HttpRequest, Reply, service_error, other_error, answered, Token, bearer, token_error, token_crash,
  Send, Exchanged, degraded, crashed, body_of, read_reply, exchange,
}

-- A reply that carries no result: an exception, a status of 400 or more, or no JSON.
abbrev pub IsNoAnswer : Reply → Type 0
IsNoAnswer service_error = Unit
IsNoAnswer other_error = Unit
IsNoAnswer (answered code body token) = (400 ≤ code) ⊎ (body ≡ none)

abbrev pub IsNoBody : Exchanged → Type 0
IsNoBody degraded = Unit
IsNoBody crashed = Unit
IsNoBody (body_of payload) = ⊥

read_reply-IsNoBody : (r : Reply) → IsNoAnswer r → IsNoBody (read_reply r)
unfolding read_reply
read_reply-IsNoBody service_error h = tt
read_reply-IsNoBody other_error h = tt
read_reply-IsNoBody (answered code none token) h = ground arith
read_reply-IsNoBody (answered code (some j) token) h = ground arith

pub exchange-IsNoBody :
    (t : Token) (request : String → HttpRequest) (send : Send)
    → ((r : HttpRequest) → IsNoAnswer (send r))
    → IsNoBody (exchange t request send)
unfolding exchange
exchange-IsNoBody token_error request send h = tt
exchange-IsNoBody token_crash request send h = tt
exchange-IsNoBody (bearer t) request send h = read_reply-IsNoBody (send (request t)) (h (request t))
