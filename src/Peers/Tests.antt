-- ===== src/Peers/Tests.antt =====
-- Runs of the operations on peers.
use melodi.Peers.{Peer, session_reset, session_advance}
use melodi.Peers.Conflicts.{
  recompute, recompute-in_conflict, in_conflict, marked, pairs, against_local, against_first,
}
use melodi.Base.{replicate, u64_max, ℕ, ◌≡◌, refl, Bool, true, false, List, [], ◌∷◌, map}

abbrev peer_at : Bool → ℕ → Peer
peer_at known locator = record {
  node_id = 1 ∷ locator ∷ [];
  native_locator = locator;
  link_locator = 0;
  collision_round = 0;
  generation = 1;
  control_counter = 0;
  expires = 0;
  capabilities = 0;
  last_seen_ns = 0;
  rssi = 0;
  snr = 0;
  hops = 0;
  receive_replay = record { highest = 0; bitmap = 0 };
  session_epoch = u64_max;
  transmit_key = replicate 32 7;
  receive_key = replicate 32 8;
  ephemeral_private = replicate 32 9;
  ephemeral_public = [];
  remote_hello_challenge = [];
  local_challenge = [];
  authenticated = known;
  conflicted = false;
  handshake_pending = true;
  session_ready = true;
}

-- The first and the fourth share a locator; the third is at that of the device; the last is not known.
abbrev neighbours : List Peer
neighbours =
    peer_at true 5 ∷ peer_at true 6 ∷ peer_at true 9 ∷ peer_at true 5 ∷ peer_at false 5 ∷ []

abbrev flags : List Peer → List Bool
flags [] = []
flags (p ∷ ps) = p.conflicted ∷ flags ps

marks : flags (recompute 9 neighbours) ≡ true ∷ false ∷ true ∷ true ∷ false ∷ []
unfolding recompute pairs against_local against_first
marks = refl

recompute-in_conflict_example :
    recompute 9 neighbours ≡ map (marked (in_conflict 9 neighbours)) neighbours
recompute-in_conflict_example = recompute-in_conflict 9 neighbours

-- The epoch goes round to 1.
epoch_again : (session_reset (peer_at true 5)).session_epoch ≡ 1
unfolding session_reset session_advance
epoch_again = refl
