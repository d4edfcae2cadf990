-- ===== src/Handoff/Laws.antt =====
-- What an escalation does.
