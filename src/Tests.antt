-- ===== src/Tests.antt =====
-- Concrete stores and runs: tests of the definitions, and an instance of each theorem that has
-- conditions.
mod Data
mod Store
mod Background
mod Relays
mod Lifetimes
mod Dials
mod Commands
mod Outcomes
mod Retry
mod Queue
mod Settings
mod Versions
mod Capacity
mod Keys
mod Handlers
mod Routes
mod Process
