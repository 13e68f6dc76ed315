-- ===== src/Replay.antt =====
-- src/proto/replay.c and replay.h, melodi_replay_window: which message counters a peer may still use.
pub mod Window
pub mod History
pub mod Refinement
mod Tests
