-- ===== src/Radio.antt =====
-- src/proto/radio.c and radio.h: the protocol between the host and the radio.
pub mod Stream
pub mod Kind
pub mod Configure
pub mod Status
pub mod Transmit
pub mod Receive
pub mod Report
pub mod Messages
pub mod Info
pub mod Segment
pub mod Duration
mod Tests
