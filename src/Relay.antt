-- ===== src/Relay.antt =====
-- Relays between a client and a worker: server/internal/relay.
pub mod Manager
pub mod Outcome
pub mod Version
pub mod Loops
pub mod Run
pub mod Shutdown
