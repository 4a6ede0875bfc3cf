-- ===== src/RwLock.antt =====
-- t_pthread_rdlock.c, readers and writers of one number.
pub mod Defs
pub mod Isolation
mod Examples
