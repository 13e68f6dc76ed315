-- ===== src/Reliability.antt =====
-- src/proto/reliability.c and reliability.h: retransmission of the fragments of one message.
pub mod State
pub mod Bounds
pub mod Missing
pub mod Retries
mod Tests
