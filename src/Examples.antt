-- ===== src/Examples.antt =====
-- Runs at concrete inputs.
mod Supervisor
mod Queues
mod Crash
mod Mail
mod Bus
mod Commands
mod Stealing
mod Workers
mod Scheduling
mod Tasks
mod Producers
mod Typing
mod Lifetimes
