-- ===== src/Runtime.antt =====
-- buster/runtime.py: the daemon that owns the one kernel, its lock and its requests.
pub mod Lock
pub mod Rpc
