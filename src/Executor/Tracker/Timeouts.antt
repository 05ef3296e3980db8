-- ===== src/Executor/Tracker/Timeouts.antt =====
-- `check_timeouts` reports each overdue order once, sixteen of them at most in one call.
