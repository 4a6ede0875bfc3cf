-- ===== src/ThreadCleanup.antt =====
-- t_thread_cleanup.c, a thread with a clean-up handler that is cancelled or runs to its end.
pub mod Defs
pub mod Cleaning
pub mod Progress
mod Examples
