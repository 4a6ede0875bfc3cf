-- ===== src/JoinTerm.antt =====
-- thread_joinTerm.c, threads that are joined in the order in which they terminate.
pub mod Defs
pub mod Invariant
pub mod Preserved
pub mod Safety
pub mod Progress
pub mod Termination
mod Examples
