-- ===== src/Cancel.antt =====
-- t_pthread_cancel.c and t_pthread_cancel2.c, a thread that only a cancellation ends.
pub mod Defs
pub mod Reports
mod Examples
