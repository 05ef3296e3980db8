-- ===== src/Ops.antt =====
-- src/ops: what watches over a day of trading.
pub mod DailyLimit
