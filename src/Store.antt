-- ===== src/Store.antt =====
-- The PostgreSQL store: internal/adapters/postgres/store.go, over the tables of migration.sql.
pub mod Schema
pub mod Orders
pub mod Operations
pub mod Schedule
pub mod Events
pub mod Refunds
pub mod Stats
