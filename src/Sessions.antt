-- ===== src/Sessions.antt =====
-- backend/src/api/sessions: a dialogue, its messages, and the routing of a message through
-- emergencies, consent, the collection of an order, and the policy.
pub mod Dialogue
pub mod Model
pub mod Access
pub mod State
pub mod Switch
pub mod Prefs
pub mod Order
pub mod Fresh
pub mod Resolve
pub mod Accident
pub mod Post
pub mod Laws
