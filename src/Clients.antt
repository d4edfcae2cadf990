-- ===== src/Clients.antt =====
-- backend/src/api/clients: calls of the neighbouring services, with a circuit breaker and repeats.
pub mod Breaker
pub mod Retry
pub mod Request
pub mod Cache
