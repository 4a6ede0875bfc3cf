-- ===== src/Reactor.antt =====
-- myEpollReactor.c, an echo-like server driven by one epoll instance.
pub mod Kernel
pub mod Defs
pub mod Invariant
pub mod Accepting
pub mod Handlers
pub mod Loop
pub mod Protocol
pub mod Connections
pub mod Turns
mod Examples
