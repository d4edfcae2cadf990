-- ===== src/Sessions/Laws/Streak.antt =====
-- Repeated low confidence.
use kb_concierge.Prelude.{◌≤◌, ◌≡◌, true, ◌&&◌, arith}
use kb_concierge.Policy.Kinds.{handoff}
use kb_concierge.Policy.Engine.{PolicyDecision}
use kb_concierge.Sessions.Model.{AgentSession}
use kb_concierge.Sessions.Fresh.{apply_low_confidence_streak, is_clarify, is_low}

module _ (session : AgentSession) where
  -- After any decision the streak of a session is at most one.
  pub streak-bounded :
      (d : PolicyDecision) → (apply_low_confidence_streak session d).1.low_confidence_streak ≤ 1
  unfolding apply_low_confidence_streak
  streak-bounded d = ground arith

  -- Of two decisions in a row to clarify for low confidence, the second is replaced by a handoff,
  -- if the first was not, and the streak starts again.
  pub streak-second :
      (d e : PolicyDecision)
      → (is_clarify d.outcome && is_low d.reason) ≡ true
      → (is_clarify e.outcome && is_low e.reason) ≡ true
      → session.low_confidence_streak ≡ 0
      → let after = (apply_low_confidence_streak session d).1 in
        ((apply_low_confidence_streak session d).0 ≡ d)
        × (((apply_low_confidence_streak after e).0.outcome ≡ handoff)
            × ((apply_low_confidence_streak after e).1.low_confidence_streak ≡ 0))
  unfolding apply_low_confidence_streak
  streak-second d e hd he h = (ground arith, (ground arith, ground arith))
