-- ===== src/RecordLocks.antt =====
-- i_fcntl_locking.c, t_fcntl_locking.c and file_lock.c, which ask fcntl for locks on a file.
pub mod Kernel
pub mod Command
pub mod Interactive
pub mod Holding
mod Examples
