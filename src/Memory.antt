-- ===== src/Memory.antt =====
-- buster/memory: what the assistant remembers.
pub mod Core
pub mod Knowledge
pub mod Lines
pub mod Experience
pub mod Reflection
