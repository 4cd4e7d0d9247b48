-- ===== src/Scheduler.antt =====
-- The session scheduler: server/internal/scheduler.
pub mod Settings
pub mod Claim
pub mod System
pub mod Retry
pub mod Queue
pub mod Heartbeat
pub mod Capacity
pub mod Waker
