-- ===== src/Invariants.antt =====
-- Invariants of the tables, over every run of the program.
pub mod Unique
pub mod Outbox
pub mod Scheduled
pub mod Reserved
pub mod Opened
pub mod Delivered
pub mod Offered
