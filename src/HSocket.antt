-- ===== src/HSocket.antt =====
-- webprogramming/HSocket.c and HSocket.h, the socket library of the repository.
pub mod Kernel
pub mod Wrappers
pub mod Transfer
pub mod Retry
pub mod Wire
mod Pipe
pub mod Calls
mod Examples
