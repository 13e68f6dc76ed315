-- ===== src/Queue.antt =====
-- kernel/core/queue.c: the frames that wait for the link, the reservations for messages that are not
-- cut into frames yet, and whose turn it is. These are the records and their limits.
pub mod Scheduler
pub mod Least
pub mod Rounds
pub mod Fairness
pub mod Liveness
pub mod Selection
pub mod Reservations
pub mod Reserve
pub mod Sealing
pub mod Accounts
pub mod Granted
pub mod Ledger
pub mod Once
pub mod Tests
use melodi.Base.{length, replicate, ℕ, Bool, false, List, []}

abbrev pub tx_queue_limit : ℕ
tx_queue_limit = 128

abbrev pub tx_flow_limit : ℕ
tx_flow_limit = 64

abbrev pub tx_control_burst_limit : ℕ
tx_control_burst_limit = 8

-- `struct melodi_tx_meta`
pub record TxMeta : Type 0 where
  pub destination_locator : ℕ
  pub source_locator : ℕ
  pub cookie : ℕ

-- `struct melodi_tx_queue_entry`. The frame is its octets, and `net` a number for the namespace.
pub record Entry : Type 0 where
  pub destination : List ℕ
  pub frame : List ℕ
  pub net : ℕ
  pub metadata : TxMeta
  pub sequence : ℕ
  pub group_id : ℕ
  pub message_id : ℕ
  pub session_epoch : ℕ
  pub expires_ms : ℕ
  pub defer_until_ms : ℕ
  pub binding_generation : ℕ
  pub binding_portid : ℕ
  pub identity_generation : ℕ
  pub length : ℕ
  pub service : ℕ
  pub destination_service : ℕ
  pub priority : ℕ
  pub peer_index : ℕ
  pub flow_index : ℕ
  pub control : Bool
  pub broadcast : Bool
  pub reliable : Bool
  pub cancelled : Bool
  pub terminal_notified : Bool
  pub in_flight : Bool
  pub active : Bool

-- `struct melodi_tx_peer_turn`
pub record PeerTurn : Type 0 where
  pub turn : ℕ
  pub locator : ℕ
  pub active : Bool

-- `struct melodi_tx_flow_turn`
pub record FlowTurn : Type 0 where
  pub turn : ℕ
  pub binding_generation : ℕ
  pub locator : ℕ
  pub binding_portid : ℕ
  pub service : ℕ
  pub peer_index : ℕ
  pub active : Bool

-- `memset(…, 0, …)`
abbrev pub no_entry : Entry
no_entry = record {
  destination = replicate 33 0;
  frame = [];
  net = 0;
  metadata = record { destination_locator = 0; source_locator = 0; cookie = 0 };
  sequence = 0;
  group_id = 0;
  message_id = 0;
  session_epoch = 0;
  expires_ms = 0;
  defer_until_ms = 0;
  binding_generation = 0;
  binding_portid = 0;
  identity_generation = 0;
  length = 0;
  service = 0;
  destination_service = 0;
  priority = 0;
  peer_index = 0;
  flow_index = 0;
  control = false;
  broadcast = false;
  reliable = false;
  cancelled = false;
  terminal_notified = false;
  in_flight = false;
  active = false;
}

abbrev pub no_peer_turn : PeerTurn
no_peer_turn = record { turn = 0; locator = 0; active = false }

abbrev pub no_flow_turn : FlowTurn
no_flow_turn = record {
  turn = 0;
  binding_generation = 0;
  locator = 0;
  binding_portid = 0;
  service = 0;
  peer_index = 0;
  active = false;
}

-- The part of struct melodi_device that the scheduler reads and writes.
pub record Schedule : Type 0 where
  pub tx_queue : List Entry
  pub tx_peers : List PeerTurn
  pub tx_flows : List FlowTurn
  pub tx_scheduler_turn : ℕ
  pub tx_priority_slot : ℕ
  pub tx_control_burst : ℕ

-- `struct melodi_tx_reservation`
pub record Reservation : Type 0 where
  pub destination : List ℕ
  pub net : ℕ
  pub id : ℕ
  pub expires_ms : ℕ
  pub binding_generation : ℕ
  pub cookie : ℕ
  pub tag : ℕ
  pub session_epoch : ℕ
  pub locator : ℕ
  pub source_locator : ℕ
  pub binding_portid : ℕ
  pub identity_generation : ℕ
  pub bytes : ℕ
  pub logical_length : ℕ
  pub count : ℕ
  pub service : ℕ
  pub destination_service : ℕ
  pub priority : ℕ
  pub peer_index : ℕ
  pub flow_index : ℕ
  pub pending_reserved : Bool
  pub broadcast : Bool
  pub reliable : Bool
  pub claimed : Bool
  pub sealed : Bool
  pub active : Bool

abbrev pub no_reservation : Reservation
no_reservation = record {
  destination = replicate 33 0;
  net = 0;
  id = 0;
  expires_ms = 0;
  binding_generation = 0;
  cookie = 0;
  tag = 0;
  session_epoch = 0;
  locator = 0;
  source_locator = 0;
  binding_portid = 0;
  identity_generation = 0;
  bytes = 0;
  logical_length = 0;
  count = 0;
  service = 0;
  destination_service = 0;
  priority = 0;
  peer_index = 0;
  flow_index = 0;
  pending_reserved = false;
  broadcast = false;
  reliable = false;
  claimed = false;
  sealed = false;
  active = false;
}

-- `struct melodi_namespace_queue`: what a namespace has queued and reserved on all its devices.
pub record Namespace : Type 0 where
  pub net : ℕ
  pub messages : ℕ
  pub bytes : ℕ

-- `struct melodi_queue_request`
pub record Request : Type 0 where
  pub destination : List ℕ
  pub message_id : ℕ
  pub session_epoch : ℕ
  pub ttl_ms : ℕ
  pub binding_portid : ℕ
  pub identity_generation : ℕ
  pub source_locator : ℕ
  pub binding_generation : ℕ
  pub service : ℕ
  pub destination_service : ℕ
  pub priority : ℕ
  pub broadcast : Bool
  pub reliable : Bool
  pub control : Bool

-- The accounts of one device, and the list of the namespaces.
pub record Queue : Type 0 where
  pub schedule : Schedule
  pub tx_reservations : List Reservation
  pub tx_reservation_sequence : ℕ
  pub tx_queue_bytes : ℕ
  pub tx_reserved_bytes : ℕ
  pub tx_queue_count : ℕ
  pub tx_reserved_count : ℕ
  pub tx_pending_reserved : ℕ
  pub tx_queue_stopping : Bool
  pub namespaces : List Namespace
