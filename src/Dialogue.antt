-- ===== src/Dialogue.antt =====
-- The clients connected to webprogramming/tcpServer.c, or to webprogramming/multi_thread_server.c.
pub mod Connection
pub mod Answers
pub mod Lines
pub mod Stop
mod Examples
