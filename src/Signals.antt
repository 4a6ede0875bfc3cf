-- ===== src/Signals.antt =====
-- webprogramming/killfrom.c and t_sigqueue.c, which send signals in a loop.
pub mod Killfrom
pub mod Sigqueue
pub mod Sent
mod Examples
