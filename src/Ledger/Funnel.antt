-- ===== src/Ledger/Funnel.antt =====
-- The place in the funnel, and the window of inactivity.
use kb_concierge.Prelude.{ℕ, ◌+◌, ◌≤◌, ◌≡◌, List, [], ◌∷◌, arith, if◌then◌else◌}
use kb_concierge.Ledger.{OutcomeRecord, Progress, moved, advanced, settlable}

-- Progress never moves the place in the funnel back; and where the place does not move forward,
-- the window of inactivity ends when it would have ended, so a repeated look cannot prolong it.
pub advanced-forward :
    (p : Progress) (r : OutcomeRecord)
    → (r.step_seq ≤ (advanced p r).step_seq)
      × (p.step_seq ≤ r.step_seq
          → ((advanced p r).settle_after ≡ r.settle_after)
            × ((advanced p r).furthest_step ≡ r.furthest_step))
unfolding advanced moved
advanced-forward p r = (ground arith, λ h. (ground (arith, h), ground (arith, h)))

-- The number of records that are open and whose window has ended.
pub due : ℕ → List OutcomeRecord → ℕ
due now [] = 0
due now (r ∷ rs) = (if settlable now r then 1 else 0) + due now rs
