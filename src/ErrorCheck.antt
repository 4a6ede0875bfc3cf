-- ===== src/ErrorCheck.antt =====
-- t_pthread_mutexattr.c, a mutex that checks its owner.
pub mod Defs
pub mod Safety
pub mod Progress
mod Examples
