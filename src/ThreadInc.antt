-- ===== src/ThreadInc.antt =====
-- thread_inc.c, two threads that count without a lock.
pub mod Defs
pub mod Counting
pub mod Least
pub mod Range
mod Examples
