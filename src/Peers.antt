-- ===== src/Peers.antt =====
-- struct melodi_peer of kernel/core/internal.h, and the operations on a peer of kernel/core/discovery.c
-- that other files call.
pub mod Conflicts
pub mod Tests
use melodi.Replay.Window.{Window, reset}
use melodi.Base.{◌==◌, if◌then◌else◌, replicate, same_bytes, u64, ℕ, ◌+◌, Bool, false, ◌&&◌, List}

abbrev pub peer_limit : ℕ
peer_limit = 64

-- `rssi` and `snr` are the bit patterns of an `s16`.
pub record Peer : Type 0 where
  pub node_id : List ℕ
  pub native_locator : ℕ
  pub link_locator : ℕ
  pub collision_round : ℕ
  pub generation : ℕ
  pub control_counter : ℕ
  pub expires : ℕ
  pub capabilities : ℕ
  pub last_seen_ns : ℕ
  pub rssi : ℕ
  pub snr : ℕ
  pub hops : ℕ
  pub receive_replay : Window
  pub session_epoch : ℕ
  pub transmit_key : List ℕ
  pub receive_key : List ℕ
  pub ephemeral_private : List ℕ
  pub ephemeral_public : List ℕ
  pub remote_hello_challenge : List ℕ
  pub local_challenge : List ℕ
  pub authenticated : Bool
  pub conflicted : Bool
  pub handshake_pending : Bool
  pub session_ready : Bool

-- The test of the loops that look for the peer of a node.
unfoldable pub is_peer : List ℕ → Peer → Bool
is_peer node p = p.authenticated && same_bytes p.node_id node

unfoldable pub session_advance : Peer → Peer
session_advance p =
    let epoch = u64 (p.session_epoch + 1) in
    record p { session_epoch = if epoch == 0 then u64 (epoch + 1) else epoch }

-- What `melodi_peer_session_reset_locked` does to the peer; it calls
-- `melodi_data_peer_reset_locked` before.
unfoldable pub session_reset : Peer → Peer
session_reset p = session_advance (record p {
  transmit_key = replicate 32 0;
  receive_key = replicate 32 0;
  ephemeral_private = replicate 32 0;
  receive_replay = reset;
  session_ready = false;
  handshake_pending = false;
})
