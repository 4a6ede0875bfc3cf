-- ===== src/ProducerConsumer.antt =====
-- producer_consumer_model.c, the producer and the consumer with a condition variable.
pub mod Defs
pub mod Invariant
pub mod Safety
pub mod Termination
pub mod LostWakeup
mod Examples
