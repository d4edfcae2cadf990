-- ===== src/Policy.antt =====
-- backend/src/api/policy: what the agent may do on a turn. The matrix of rules (built in, or
-- loaded from the stored policy), the signals of the text, the engine, and the guardrails on top.
pub mod Kinds
pub mod Signals
pub mod Matrix
pub mod Engine
pub mod Guardrails
pub mod Store
pub mod Safety
pub mod Loading
pub mod Wrap
pub mod Active
