-- ===== src/EchoServer.antt =====
-- webprogramming/tcpServer.c, a server for one connection.
pub mod Defs
pub mod Echo
mod Examples
