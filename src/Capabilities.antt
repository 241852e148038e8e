-- ===== src/Capabilities.antt =====
-- The capability system (buster/capabilities).
pub mod Registry
