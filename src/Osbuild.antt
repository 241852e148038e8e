-- ===== src/Osbuild.antt =====
-- buster/osbuild: the construction of root file systems.
pub mod Version
pub mod Resolver
pub mod Archive
pub mod Control
pub mod Index
pub mod Elf
