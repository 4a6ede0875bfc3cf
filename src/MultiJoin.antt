-- ===== src/MultiJoin.antt =====
-- thread_multijoin.c, threads that are joined as they terminate.
pub mod Defs
pub mod FirstPass
pub mod Threads
mod Examples
