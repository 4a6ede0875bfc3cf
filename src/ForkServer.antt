-- ===== src/ForkServer.antt =====
-- webprogramming/multi_processor_server.c, a server with a process for each client.
pub mod Defs
pub mod Descriptor
pub mod Endless
pub mod Reaping
mod Examples
