-- ===== src/Airtime.antt =====
-- src/proto/airtime.c and airtime.h: the sliding window that keeps a radio within its airtime budget.
pub mod Window
pub mod Sums
pub mod Invariant
pub mod Expiry
pub mod Wait
pub mod Deferral
mod Tests
