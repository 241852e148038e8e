-- ===== src/Shell.antt =====
-- buster/shell: the interactive shell.
pub mod Parser
pub mod Commands
