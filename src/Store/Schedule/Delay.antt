-- ===== src/Store/Schedule/Delay.antt =====
-- The delay of the reconciliation schedule.
