-- ===== src/Tests.antt =====
-- Runs on concrete inputs: each instance of a theorem is taken at values where its conditions hold.
pub mod Sample
mod Policies
mod Turns
mod Dialogues
mod Services
mod Intents
mod Neighbours
mod Tokens
mod Guides
