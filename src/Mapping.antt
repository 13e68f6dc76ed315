-- ===== src/Mapping.antt =====
-- src/proto/mapping.c and mapping.h: the native locator of a node, from a hash.
pub mod Blake2s
pub mod Locator
mod Tests
pub mod Collision
pub mod Sorted
