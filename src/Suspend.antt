-- ===== src/Suspend.antt =====
-- simpleSuspend.c, three blocked signals and sigsuspend.
pub mod Defs
pub mod Reports
mod Examples
