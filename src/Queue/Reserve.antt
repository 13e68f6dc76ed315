-- ===== src/Queue/Reserve.antt =====
-- melodi_queue_capacity_locked and melodi_queue_reserve of kernel/core/queue.c.
use melodi.Slots.{Slot, found, missing, scan, index, total}
use melodi.Queue.{
  Entry, PeerTurn, FlowTurn, Reservation, Namespace, Request, Queue, no_peer_turn, no_flow_turn,
  no_reservation, tx_queue_limit,
}
use melodi.Queue.Reservations.{
  tx_data_limit, tx_byte_limit, tx_share_limit, tx_namespace_limit, tx_namespace_byte_limit,
  pending_limit, ttl_default_ms, namespace_find, namespace_get, namespace_update, namespace_put,
  charge, clear_flow, clear_peer,
}
use melodi.Base.{
  ltb, leb, ◌==◌, if◌then◌else◌, ◌>>◌, reject, Result, get_or, set, u16, u32, u64_max, ok, err,
  einval, enospc, eoverflow, enomem, enobufs, enetdown, ℕ, ◌+◌, ◌-◌, Bool, true, false, not, ◌&&◌,
  ◌||◌, none, some, List,
}

abbrev one_if : Bool → ℕ
one_if test = if test then 1 else 0

-- What the entries and the reservations that a test selects count for.
unfoldable pub frames : (Entry → Bool) → (Reservation → Bool) → Queue → ℕ
frames in_queue reserved q =
    total (λ (e : Entry). one_if (e.active && in_queue e)) q.schedule.tx_queue
    + total (λ (r : Reservation). if r.active && reserved r then r.count else 0) q.tx_reservations

-- The counters of `melodi_queue_capacity_locked`. For control frames the last three count no entry,
-- and are not looked at.
unfoldable pub data_count : Queue → ℕ
data_count q = frames (λ e. not e.control) (λ _. true) q

unfoldable pub peer_count : Queue → Request → ℕ → ℕ
peer_count q request locator =
    frames (λ e. not request.control && not e.control && e.metadata.destination_locator == locator)
      (λ r. r.locator == locator) q

unfoldable pub service_count : Queue → Request → ℕ
service_count q request =
    frames (λ e. not request.control && not e.control && e.service == request.service)
      (λ r. r.service == request.service) q

unfoldable pub binding_count : Queue → Request → ℕ
binding_count q request =
    frames
      (λ e.
        not request.control
        && not e.control
        && e.binding_portid == request.binding_portid
        && e.binding_generation == request.binding_generation)
      (λ r.
        r.binding_portid == request.binding_portid
        && r.binding_generation == request.binding_generation)
      q

-- The tests of `melodi_queue_capacity_locked` against the namespace it got. The unsigned differences
-- do not wrap round, since the tests before them bound the count and the bytes.
unfoldable pub room : Queue → Namespace → ℕ → Request → ℕ → ℕ → Result (Unit {0})
room q n locator request count bytes = do
  reject
      (ltb tx_queue_limit count
        || ltb tx_byte_limit bytes
        || ltb tx_namespace_limit count
        || ltb tx_namespace_byte_limit bytes)
      enobufs
  reject (not request.control && (ltb tx_data_limit count || ltb tx_share_limit count)) enobufs
  reject
      (ltb (tx_queue_limit - count) (q.tx_queue_count + q.tx_reserved_count)
        || ltb (tx_byte_limit - bytes) (q.tx_queue_bytes + q.tx_reserved_bytes)
        || ltb (tx_namespace_limit - count) n.messages
        || ltb (tx_namespace_byte_limit - bytes) n.bytes)
      enobufs
  reject
      (not request.control
        && (ltb (tx_data_limit - count) (data_count q)
            || ltb (tx_share_limit - count) (peer_count q request locator)
            || ltb (tx_share_limit - count) (service_count q request)
            || ltb (tx_share_limit - count) (binding_count q request)))
      enobufs
  ok tt

-- `melodi_queue_capacity_locked` behind the call that gets the namespace.
unfoldable pub capacity : Queue → ℕ → ℕ → Request → ℕ → ℕ → Result (Unit {0})
capacity q net locator request count bytes = elim (namespace_find net q.namespaces) [
  | none ↦ err enomem
  | some n ↦ room q n locator request count bytes
]

-- The place of a turn, and whether it is new.
pub data Place : Type 0 where
  old_place : ℕ → Place
  new_place : ℕ → Place

unfoldable pub place_of : Slot → Result Place
place_of (found i) = ok (old_place i)
place_of (missing (some i)) = ok (new_place i)
place_of (missing none) = err enospc

-- `melodi_queue_peer_locked`
unfoldable pub peer_locked : Queue → ℕ → Result Place
peer_locked q locator = place_of (
    scan (λ (t : PeerTurn). t.active) (λ (t : PeerTurn). t.active && t.locator == locator) 0 none
      q.schedule.tx_peers)

unfoldable pub same_flow : ℕ → Request → FlowTurn → Bool
same_flow locator request t =
    t.active
    && t.locator == locator
    && t.service == request.service
    && t.binding_portid == request.binding_portid
    && t.binding_generation == request.binding_generation

-- `melodi_queue_flow_locked`
unfoldable pub flow_locked : Queue → ℕ → Request → Result Place
flow_locked q locator request =
    place_of
      (scan (λ (t : FlowTurn). t.active) (same_flow locator request) 0 none q.schedule.tx_flows)

abbrev pub place_index : Place → ℕ
place_index (old_place i) = i
place_index (new_place i) = i

unfoldable pub open_peer : Place → ℕ → List PeerTurn → List PeerTurn
open_peer (old_place i) locator ts = ts
open_peer (new_place i) locator ts =
    set ts i (record (get_or ts i no_peer_turn) { locator = locator; active = true })

unfoldable pub open_flow : Place → ℕ → Request → ℕ → List FlowTurn → List FlowTurn
open_flow (old_place i) locator request peer ts = ts
open_flow (new_place i) locator request peer ts = set ts i (record (get_or ts i no_flow_turn) {
  locator = locator;
  binding_portid = request.binding_portid;
  binding_generation = request.binding_generation;
  service = request.service;
  peer_index = peer;
  active = true;
})

-- The label `unlock` after an error.
abbrev pub close_peer : Place → Queue → Queue
close_peer (old_place i) q = q
close_peer (new_place i) q = clear_peer q i

abbrev pub close_flow : Place → Queue → Queue
close_flow (old_place i) q = q
close_flow (new_place i) q = clear_flow q i

-- The reservation that is written into entry `i`.
abbrev pub made :
    Reservation → Queue → ℕ → ℕ → ℕ → Request → ℕ → ℕ → ℕ → ℕ → Bool → ℕ → ℕ → Reservation
made r q now net locator request count bytes logical_length cookie reliable peer flow = record r {
  net = net;
  destination = request.destination;
  id = q.tx_reservation_sequence + 1;
  expires_ms = now + request.ttl_ms;
  binding_generation = request.binding_generation;
  cookie = cookie;
  session_epoch = request.session_epoch;
  locator = locator;
  source_locator = request.source_locator;
  binding_portid = request.binding_portid;
  identity_generation = request.identity_generation;
  bytes = bytes;
  logical_length = logical_length;
  count = count;
  service = request.service;
  destination_service = request.destination_service;
  priority = request.priority;
  peer_index = peer;
  flow_index = flow;
  pending_reserved = reliable;
  broadcast = request.broadcast;
  reliable = reliable;
  active = true;
}

abbrev pub bool_eq : Bool → Bool → Bool
bool_eq true b = b
bool_eq false b = not b

-- The arguments of a call of `melodi_queue_reserve`. `allocated` is whether a namespace that is not
-- in the list yet can be given memory.
pub record Asked : Type 0 where
  pub now : ℕ
  pub allocated : Bool
  pub net : ℕ
  pub locator : ℕ
  pub request : Request
  pub count : ℕ
  pub bytes : ℕ
  pub logical_length : ℕ
  pub cookie : ℕ
  pub reliable : Bool
  pub active_pending : ℕ

-- The checks before the namespace is looked up, and the index of a free reservation.
unfoldable pub reserve_checks : Queue → Asked → Result ℕ
reserve_checks q a = do
  reject
      (a.count == 0
        || a.bytes == 0
        || a.request.control
        || a.request.ttl_ms == 0
        || not (bool_eq a.request.reliable a.reliable)
        || ltb ttl_default_ms a.request.ttl_ms)
      einval
  reject (ltb (u64_max - a.request.ttl_ms) a.now) eoverflow
  reject q.tx_queue_stopping enetdown
  reject (a.reliable && leb pending_limit (a.active_pending + q.tx_pending_reserved)) enospc
  elim (index (λ (r : Reservation). not r.active) q.tx_reservations) [
    | none ↦ err enobufs
    | some i ↦ ok i
  ]

-- The state in which a reservation has been written into entry `i`.
unfoldable pub write_reservation : Queue → Asked → ℕ → Place → Place → Queue
write_reservation q a i peer flow =
    let made_now =
      made (get_or q.tx_reservations i no_reservation) q a.now a.net a.locator a.request a.count
        a.bytes a.logical_length a.cookie a.reliable (place_index peer) (place_index flow) in
    record q {
      schedule = record q.schedule {
        tx_peers = open_peer peer a.locator q.schedule.tx_peers;
        tx_flows = open_flow flow a.locator a.request (place_index peer) q.schedule.tx_flows;
      };
      tx_reservations = set q.tx_reservations i made_now;
      tx_reservation_sequence = q.tx_reservation_sequence + 1;
      tx_reserved_count = u16 (q.tx_reserved_count + a.count);
      tx_reserved_bytes = u32 (q.tx_reserved_bytes + a.bytes);
      tx_pending_reserved =
          if a.reliable then u16 (q.tx_pending_reserved + 1) else q.tx_pending_reserved;
      namespaces = namespace_update a.net (charge a.count a.bytes) q.namespaces;
    }

-- `melodi_queue_reserve` once the namespace is there: what the label `unlock` leaves, and the id of
-- the reservation.
unfoldable pub reserve_in : Queue → Asked → ℕ → Queue × Result ℕ
reserve_in q a i =
    let given_up : Queue → Queue =
      λ q. record q { namespaces = namespace_put a.net q.namespaces } in
    elim (capacity q a.net a.locator a.request a.count a.bytes) [
      | err e ↦ (given_up q, err e)
      | ok _ ↦ elim (peer_locked q a.locator) [
        | err e ↦ (given_up q, err e)
        | ok peer ↦ elim (flow_locked q a.locator a.request) [
          | err e ↦ (given_up (close_peer peer q), err e)
          | ok flow ↦
              if q.tx_reservation_sequence == u64_max
              then (given_up (close_peer peer (close_flow flow q)), err eoverflow)
              else (write_reservation q a i peer flow, ok (q.tx_reservation_sequence + 1))
        ]
      ]
    ]

unfoldable pub reserve : Queue → Asked → Queue × Result ℕ
reserve q a = elim (reserve_checks q a) [
  | err e ↦ (q, err e)
  | ok i ↦ elim (namespace_get a.allocated a.net q.namespaces) [
    | none ↦ (q, err enomem)
    | some ns ↦ reserve_in (record q { namespaces = ns }) a i
  ]
]
