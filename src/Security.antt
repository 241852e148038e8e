-- ===== src/Security.antt =====
-- buster/security: the context of an invocation and the elevation of sensitive actions.
pub mod Context
pub mod Elevation
pub mod Protection
