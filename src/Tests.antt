-- ===== src/Tests.antt =====
-- Concrete runs, and the theorems at concrete inputs.
mod Machine
mod Setup
mod Idempotency
mod Creation
mod Invariants
mod Webhooks
mod Values
mod Verification
mod Workers
mod Metrics
mod Http
mod Connector
