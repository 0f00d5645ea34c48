-- ===== src/App.antt =====
-- The application: internal/app.
pub mod Status
pub mod Service
pub mod Refunds
pub mod Webhook
pub mod Reconciler
pub mod Workers
