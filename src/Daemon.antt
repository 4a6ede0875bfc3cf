-- ===== src/Daemon.antt =====
-- Daemon/daemon_1.c, which creates a file at every alarm of its timer.
pub mod Defs
pub mod Logs
mod Examples
