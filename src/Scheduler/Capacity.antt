-- ===== src/Scheduler/Capacity.antt =====
-- No worker is ever given more sessions than it has slots: the capacity invariant that claimOnce
-- relies on, under every interleaving of claims with one another and with the other statements.
pub mod Defs
pub mod Workers
pub mod Trips
pub mod Answers
pub mod Steps
pub mod Bound
