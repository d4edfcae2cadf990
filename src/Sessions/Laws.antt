-- ===== src/Sessions/Laws.antt =====
-- What the routing of a message, and the requests on a session, keep.
pub mod Gates
pub mod Streak
pub mod Offers
pub mod Consent
pub mod Ending
