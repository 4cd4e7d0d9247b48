-- ===== src/Http.antt =====
-- The HTTP interface: server/internal/httpapi.
pub mod Auth
pub mod Response
pub mod Sessions
pub mod Workers
pub mod Relay
pub mod Capacity
