-- ===== src/Kernel.antt =====
-- The kernel's control plane (buster/kernel).
pub mod Permissions
pub mod Scheduler
pub mod EventRouter
pub mod AgentManager
pub mod WorldModel
pub mod Audit
pub mod Core
