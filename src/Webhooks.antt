-- ===== src/Webhooks.antt =====
-- What a webhook can change.
pub mod Unchanged
