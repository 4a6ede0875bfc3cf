-- ===== src/Polling.antt =====
-- prod_no_condvar.c, producers and a consumer that polls.
pub mod Defs
pub mod Balance
mod Examples
