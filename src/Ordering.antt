-- ===== src/Ordering.antt =====
-- src/proto/ordering.c and ordering.h: releasing a peer's ordered messages in order.
pub mod State
pub mod Loops
pub mod Positions
pub mod Progress
mod Tests
