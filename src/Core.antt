-- ===== src/Core.antt =====
-- The contract of the connector: internal/core.
pub mod Value
pub mod Model
pub mod Error
pub mod Context
pub mod Encode
pub mod Decode
pub mod RoundTrip
pub mod Strict
pub mod Stored
pub mod Commands
pub mod Capabilities
