-- ===== src/Wire.antt =====
-- src/proto/wire.c and wire.h: the codecs of the frames.
pub mod Octets
pub mod Class
pub mod Flag
pub mod Common
pub mod Data
pub mod Fields
pub mod Claim
pub mod Ack
pub mod Auth
pub mod Control
mod Tests
