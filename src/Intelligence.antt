-- ===== src/Intelligence.antt =====
-- buster/intelligence: the state that the assistant keeps between runs.
pub mod Goals
pub mod Plans
pub mod Rhythm
pub mod Attention
pub mod Working
pub mod Episodes
pub mod Learning
pub mod Procedures
pub mod Selection
