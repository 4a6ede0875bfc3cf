-- ===== src/Clients.antt =====
-- webprogramming/tcpClient.c and webprogramming/client.c, which send lines to a server.
pub mod Defs
pub mod Texts
pub mod Conversation
pub mod Unconnected
mod Examples
