-- ===== src/MultiThread.antt =====
-- webprogramming/multi_thread_server.c, a server with a thread for each client.
pub mod Defs
pub mod Invariant
pub mod Leak
pub mod Service
mod Examples
