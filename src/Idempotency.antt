-- ===== src/Idempotency.antt =====
-- Idempotency of creation: Create of service.go with ReserveCreate of store.go.
pub mod Sends
pub mod Reserve
pub mod Create
pub mod Replay
pub mod Canonical
pub mod Complete
pub mod Repeat
pub mod Posts
