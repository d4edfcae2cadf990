-- ===== src/Reasoning.antt =====
-- backend/src/api/reasoning: the bounded loop that carries out a decision of the policy, and the
-- detectors of consent, of an edit and of feedback.
pub mod Calls
pub mod Replies
pub mod Answers
pub mod Writes
pub mod Loop
pub mod Context
pub mod Detect
pub mod Traced
pub mod Bounded
pub mod Consent
