-- ===== src/Manager.antt =====
-- src/core/actor_manager.h and actor_manager.cc: the actor that supervises the modules.
pub mod State
pub mod Tables
pub mod Pending
pub mod WellFormed
pub mod Loading
pub mod Handlers
pub mod EventLoop
pub mod Exits
pub mod Opening
pub mod Shutdown
pub mod Ownership
pub mod Presence
pub mod Supervision
