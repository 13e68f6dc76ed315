-- ===== src/Policy/Lookup.antt =====
-- The two tables as maps, and the lookups of the source by these maps.
use melodi.Slots.{index}
use melodi.Slots.Index.{scan-index}
use melodi.Slots.Update.{Place}
use melodi.Slots.Keyed.{Keyed, rule, rule-index}
use melodi.Policy.{
  Policy, PolicyMode, PolicyPeer, PeerState, PolicyService, ServiceAction, peer_hit, service_hit,
  peer_locked, entry_state, no_peer,
}
use melodi.Base.{
  ◌==◌, ==_iff, Option-cases, same_bytes, same_bytes→eq, same_bytes_iff, ℕ, ◌≡◌, sym, inl, inr,
  Bool, true, false, not, Option, none, some, List, arith,
}

pub peer_hit_active : (node : List ℕ) (e : PolicyPeer) → peer_hit node e ≡ true → e.active ≡ true
unfolding peer_hit
peer_hit_active node e h = ground arith

pub peer_hit_inj :
    (a b : List ℕ) (e : PolicyPeer) → peer_hit a e ≡ true → peer_hit b e ≡ true → a ≡ b
unfolding peer_hit
peer_hit_inj a b e p q = ground (arith, same_bytes→eq e.node_id a, same_bytes→eq e.node_id b)

pub service_hit_active :
    (service : ℕ) (e : PolicyService) → service_hit service e ≡ true → e.active ≡ true
unfolding service_hit
service_hit_active service e h = ground arith

pub service_hit_inj :
    (a b : ℕ) (e : PolicyService) → service_hit a e ≡ true → service_hit b e ≡ true → a ≡ b
unfolding service_hit
service_hit_inj a b e p q = ground arith

abbrev pub peers_table : Keyed PolicyPeer (List ℕ) PeerState
peers_table = record {
  active = λ e. e.active;
  hit = peer_hit;
  value = λ e. e.state;
  same = same_bytes;
  hit_active = peer_hit_active;
  hit_inj = peer_hit_inj;
  same_iff = same_bytes_iff;
}

abbrev pub services_table : Keyed PolicyService ℕ ServiceAction
services_table = record {
  active = λ e. e.active;
  hit = service_hit;
  value = λ e. e.action;
  same = ◌==◌;
  hit_active = service_hit_active;
  hit_inj = service_hit_inj;
  same_iff = ==_iff;
}

-- The policy that the tables stand for.
pub record Rules : Type 0 where
  pub mode : PolicyMode
  pub broadcast_allowed : Bool
  pub peer : List ℕ → Option PeerState
  pub service : ℕ → Option ServiceAction

unfoldable pub view : Policy → Rules
view d = record {
  mode = d.mode;
  broadcast_allowed = d.broadcast_allowed;
  peer = λ node. rule peers_table node d.policy_peers;
  service = λ service. rule services_table service d.policy_services;
}

pub peer_locked-lookup :
    (d : Policy) (node : List ℕ) → peer_locked d node false ≡ index (peer_hit node) d.policy_peers
unfolding peer_locked
peer_locked-lookup d node =
    rw (scan-index (λ e. e.active) (peer_hit node) d.policy_peers, peer_locked) (ground arith)

pub peer_locked-create :
    (d : Policy) (node : List ℕ)
    → peer_locked d node true ≡ (elim (index (peer_hit node) d.policy_peers) [
      | some i ↦ some i
      | none ↦ index (λ e. not e.active) d.policy_peers
    ])
unfolding peer_locked
peer_locked-create d node =
    rw (scan-index (λ e. e.active) (peer_hit node) d.policy_peers, peer_locked) (ground arith)

pub entry_state-rule :
    (d : Policy) (node : List ℕ) → entry_state d node ≡ rule peers_table node d.policy_peers
unfolding entry_state
entry_state-rule d node =
    rw (entry_state, peer_locked-lookup d node)
      (sym (rule-index peers_table node d.policy_peers no_peer))

-- The entry that `melodi_policy_peer_locked` hands out to be written.
pub peer_locked-Place :
    (d : Policy) (node : List ℕ) (i : ℕ)
    → peer_locked d node true ≡ some i
    → Place (λ e. e.active) (peer_hit node) d.policy_peers i
peer_locked-Place d node i h = elim (Option-cases (index (peer_hit node) d.policy_peers)) [
  | inl gone ↦ inr (gone, ground (arith, gone, peer_locked-create d node))
  | inr (p, at) ↦ inl (ground (arith, at, peer_locked-create d node))
]
