-- ===== src/Policy/Rules.antt =====
-- The operations of the policy as commands, and what each does to the rules that the tables stand
-- for.
use melodi.Slots.Keyed.{Unique}
use melodi.Policy.{
  Policy, PeerState, require_trust, allow_authenticated, Outcome, set_peer, clear_peer, set_service,
  set_broadcast, set_mode, reset, reverify_peer, action_allow, action_clear, allow, deny,
}
use melodi.Policy.Lookup.{Rules, view, peers_table, services_table}
use melodi.Base.{
  ◌==◌, if◌then◌else◌, Result, length, same_bytes, ok, err, ℕ, ◌≡◌, Bool, true, false, none, some,
  List, [],
}

-- A request to one of the operations.
pub data Command : Type 0 where
  to_peer : List ℕ → PeerState → Command
  to_clear : List ℕ → Command
  to_service : (service action : ℕ) → Command
  to_broadcast : Bool → Command
  to_mode : ℕ → Command
  to_reset : Command
  to_reverify : List ℕ → Command

abbrev pub succeeded : Result (Unit {0}) → Bool
succeeded (ok _) = true
succeeded (err _) = false

module _ (key_check : List ℕ → Bool) (announced : Result (Unit {0})) where
  unfoldable pub step : Policy → Command → Outcome
  step d (to_peer node state) = set_peer key_check d node state
  step d (to_clear node) = clear_peer key_check d node
  step d (to_service service action) = set_service d service action
  step d (to_broadcast allowed) = set_broadcast d allowed
  step d (to_mode mode) = set_mode d mode
  step d to_reset = (reset d, [], ok tt)
  step d (to_reverify node) = reverify_peer key_check announced d node

-- What a command that succeeds does to the rules.
unfoldable pub effect : Command → Rules → Rules
effect (to_peer node state) r = record r {
  peer = λ other. if same_bytes node other then some state else r.peer other;
}
effect (to_clear node) r = record r {
  peer = λ other. if same_bytes node other then none else r.peer other;
}
effect (to_service service action) r = record r {
  service = λ other.
      if service == other
      then (if action == action_clear
          then none
          else some (if action == action_allow then allow else deny))
      else r.service other;
}
effect (to_broadcast allowed) r = record r { broadcast_allowed = allowed }
effect (to_mode mode) r = record r {
  mode = if mode == 0 then allow_authenticated else require_trust;
}
effect to_reset r = record {
  mode = allow_authenticated;
  broadcast_allowed = true;
  peer = λ _. none;
  service = λ _. none;
}
effect (to_reverify node) r = r

pub record IsPolicy (d : Policy) : Type 0 where
  pub peer_slots : length d.policy_peers ≡ 64
  pub service_slots : length d.policy_services ≡ 64
  pub unique_peers : Unique peers_table d.policy_peers
  pub unique_services : Unique services_table d.policy_services

-- The rules change by the effect of the command if it succeeds, and stay if it does not; the tables
-- stay well formed.
abbrev pub Correct : Policy → Command → Outcome → Type 0
Correct d c (d', _, result) =
    (view d' ≡ (if succeeded result then effect c (view d) else view d)) × IsPolicy d'
