-- ===== src/Abort.antt =====
-- abort.c, a replacement of abort(3).
pub mod Defs
pub mod Ending
mod Examples
