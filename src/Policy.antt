-- ===== src/Policy.antt =====
-- kernel/core/policy.c: which peers and services may exchange messages, by the part of struct
-- melodi_device that it keeps. The lock has no counterpart: an operation is one step. The calls of
-- the other files are listed in order, in `Call`. `key_check` is the parameter of `node_id_valid`.
pub mod Lookup
pub mod Rules
pub mod Refinement
pub mod Results
pub mod Blocked
pub mod Tests
use melodi.Slots.{Slot, found, missing, scan, first}
use melodi.Peers.{Peer, is_peer, session_reset}
use melodi.NodeId.{node_id_valid}
use melodi.Base.{
  ltb, ◌==◌, if◌then◌else◌, ◌>>=◌, ◌>>◌, Errno, Result, get_or, set, replicate, same_bytes, ok, err,
  einval, enoent, enospc, eacces, ℕ, Bool, true, false, not, ◌&&◌, ◌||◌, Option, none, some, List,
  [], ◌∷◌, ◌++◌,
}

abbrev pub policy_peer_limit : ℕ
policy_peer_limit = 64

abbrev pub policy_service_limit : ℕ
policy_service_limit = 64

pub data PeerState : Type 0 where
  authenticated trusted blocked conflicted observed challenged : PeerState

pub data PolicyMode : Type 0 where
  allow_authenticated require_trust : PolicyMode

pub data PeerPolicy : Type 0 where
  by_default by_trust by_block : PeerPolicy

-- What an entry of the services may hold; the third action of the enumeration is only a request.
pub data ServiceAction : Type 0 where
  allow deny : ServiceAction

abbrev pub action_allow : ℕ
action_allow = 1

abbrev pub action_clear : ℕ
action_clear = 3

abbrev pub service_control : ℕ
service_control = 0

pub record PolicyPeer : Type 0 where
  pub node_id : List ℕ
  pub state : PeerState
  pub active : Bool

pub record PolicyService : Type 0 where
  pub service : ℕ
  pub action : ServiceAction
  pub active : Bool

-- `memset(entry, 0, sizeof(*entry))`. No code reads the action of an inactive entry.
abbrev pub no_peer : PolicyPeer
no_peer = record { node_id = replicate 33 0; state = authenticated; active = false }

abbrev pub no_service : PolicyService
no_service = record { service = 0; action = allow; active = false }

pub record Policy : Type 0 where
  pub mode : PolicyMode
  pub broadcast_allowed : Bool
  pub policy_peers : List PolicyPeer
  pub policy_services : List PolicyService
  pub peers : List Peer

-- Calls of operations of the other files.
pub data Call : Type 0 where
  data_peer_reset : List ℕ → Call
  queue_state_changed data_state_changed discovery_announce : Call

abbrev pub state_changed : List Call
state_changed = queue_state_changed ∷ data_state_changed ∷ []

unfoldable pub is_blocked : PeerState → Bool
is_blocked blocked = true
is_blocked _ = false

unfoldable pub is_trusted : PeerState → Bool
is_trusted trusted = true
is_trusted _ = false

unfoldable pub peer_hit : List ℕ → PolicyPeer → Bool
peer_hit node e = e.active && same_bytes e.node_id node

unfoldable pub service_hit : ℕ → PolicyService → Bool
service_hit service e = e.active && e.service == service

-- `melodi_policy_peer_locked`, by the index of the entry.
unfoldable pub peer_locked : Policy → List ℕ → Bool → Option ℕ
peer_locked d node create = elim (scan (λ e. e.active) (peer_hit node) 0 none d.policy_peers) [
  | found i ↦ some i
  | missing empty ↦ if create then empty else none
]

-- The state in the entry of a node.
unfoldable pub entry_state : Policy → List ℕ → Option PeerState
entry_state d node = elim (peer_locked d node false) [
  | some i ↦ some ((get_or d.policy_peers i no_peer).state)
  | none ↦ none
]

-- `entry && test(entry->state)`
unfoldable pub entry_is : (PeerState → Bool) → Option PeerState → Bool
entry_is test none = false
entry_is test (some state) = test state

unfoldable pub requires_trust : PolicyMode → Bool
requires_trust require_trust = true
requires_trust allow_authenticated = false

unfoldable pub check : Policy → List ℕ → Result (Unit {0})
check d node =
    let entry = entry_state d node in
    if entry_is is_blocked entry
    then err eacces
    else if requires_trust d.mode && not (entry_is is_trusted entry)
    then err eacces
    else ok tt

unfoldable pub is_deny : ServiceAction → Bool
is_deny deny = true
is_deny allow = false

unfoldable pub check_service : Policy → ℕ → Bool → Result (Unit {0})
check_service d service broadcast =
    if broadcast && not d.broadcast_allowed
    then err eacces
    else elim (first (service_hit service) d.policy_services) [
      | some e ↦ if is_deny e.action then err eacces else ok tt
      | none ↦ ok tt
    ]

unfoldable pub check_message : Policy → List ℕ → ℕ → Bool → Result (Unit {0})
check_message d destination service broadcast = do
  if broadcast then ok tt else check d destination
  check_service d service broadcast

unfoldable pub peer_state : Policy → Peer → PeerState
peer_state d p =
    let entry = entry_state d p.node_id in
    if entry_is is_blocked entry
    then blocked
    else if p.conflicted
    then conflicted
    else if not p.session_ready
    then (if p.handshake_pending then challenged else observed)
    else if entry_is is_trusted entry
    then trusted
    else authenticated

unfoldable pub peer_policy : Policy → Peer → PeerPolicy
peer_policy d p = elim (entry_state d p.node_id) [
  | none ↦ by_default
  | some s ↦ if is_blocked s then by_block else by_trust
]

-- The loops that reset the session of the peer of a node, if it is known.
unfoldable pub reset_peer : List ℕ → List Peer → Option (List Peer)
reset_peer node [] = none
reset_peer node (p ∷ ps) =
    let rest = reset_peer node ps in
    if is_peer node p
    then some (session_reset p ∷ ps)
    else elim rest [ some ps' ↦ some (p ∷ ps') | none ↦ none ]

-- What an operation leaves in the device, the calls it makes and what it returns.
abbrev pub Outcome : Type 0
Outcome = Policy × List Call × Result (Unit {0})

abbrev pub refused : Policy → Errno → Outcome
refused d e = (d, [], err e)

-- A block ends the session of the node.
unfoldable pub end_session : PeerState → List ℕ → List Peer → List Peer × List Call
end_session state node ps =
    if is_blocked state
    then elim (reset_peer node ps) [ some ps' ↦ (ps', data_peer_reset node ∷ []) | none ↦ (ps, []) ]
    else (ps, [])

unfoldable pub set_peer : (List ℕ → Bool) → Policy → List ℕ → PeerState → Outcome
set_peer key_check d node state =
    let (peers', calls) = end_session state node d.peers in
    if not (node_id_valid key_check node) || not (is_trusted state || is_blocked state)
    then refused d einval
    else elim (peer_locked d node true) [
      | none ↦ refused d enospc
      | some i ↦ (
        record d {
          policy_peers =
              set d.policy_peers i (record { node_id = node; state = state; active = true });
          peers = peers';
        },
        calls ++ state_changed,
        ok tt,
      )
    ]

unfoldable pub clear_peer : (List ℕ → Bool) → Policy → List ℕ → Outcome
clear_peer key_check d node =
    if not (node_id_valid key_check node)
    then refused d einval
    else elim (peer_locked d node false) [
      | some i ↦ (record d { policy_peers = set d.policy_peers i no_peer }, state_changed, ok tt)
      | none ↦ refused d enoent
    ]

-- `entry->service = service; entry->action = action; entry->active = true;`
unfoldable pub put_service : Policy → ℕ → ℕ → ℕ → Outcome
put_service d service action i = (
  record d {
    policy_services = set d.policy_services i (record {
      service = service;
      action = if action == action_allow then allow else deny;
      active = true;
    });
  },
  state_changed,
  ok tt,
)

unfoldable pub set_service : Policy → ℕ → ℕ → Outcome
set_service d service action =
    if service == service_control || ltb action action_allow || ltb action_clear action
    then refused d einval
    else elim (scan (λ e. e.active) (service_hit service) 0 none d.policy_services) [
      | found i ↦
          if action == action_clear
          then (
            record d { policy_services = set d.policy_services i no_service },
            state_changed,
            ok tt,
          )
          else put_service d service action i
      | missing empty ↦
          if action == action_clear
          then refused d enoent
          else elim empty [ some i ↦ put_service d service action i | none ↦ refused d enospc ]
    ]

unfoldable pub set_broadcast : Policy → Bool → Outcome
set_broadcast d allowed = (record d { broadcast_allowed = allowed }, state_changed, ok tt)

-- By the number of the mode.
unfoldable pub set_mode : Policy → ℕ → Outcome
set_mode d mode = if ltb 1 mode then refused d einval else (
  record d { mode = if mode == 0 then allow_authenticated else require_trust },
  state_changed,
  ok tt,
)

unfoldable pub reset : Policy → Policy
reset d = record d {
  policy_peers = replicate policy_peer_limit no_peer;
  policy_services = replicate policy_service_limit no_service;
  mode = allow_authenticated;
  broadcast_allowed = true;
}

-- `announced` is what `melodi_discovery_announce` returns.
unfoldable pub reverify_peer : (List ℕ → Bool) → Result (Unit {0}) → Policy → List ℕ → Outcome
reverify_peer key_check announced d node =
    if not (node_id_valid key_check node)
    then refused d einval
    else elim (reset_peer node d.peers) [
      | some peers' ↦ (
        record d { peers = peers' },
        data_peer_reset node ∷ state_changed ++ discovery_announce ∷ [],
        announced,
      )
      | none ↦ refused d enoent
    ]
