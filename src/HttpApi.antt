-- ===== src/HttpApi.antt =====
-- The HTTP interface: internal/transport/httpapi/server.go, and what it uses of net/http.
pub mod Message
pub mod Headers
pub mod Routes
pub mod Body
pub mod Server
pub mod Handlers
pub mod Observe
pub mod Effect
pub mod Silence
pub mod Returns
pub mod Answers
pub mod Identifiers
pub mod Traces
pub mod Replies
pub mod Unauthorized
pub mod Performed
pub mod Demand
pub mod Refinement
