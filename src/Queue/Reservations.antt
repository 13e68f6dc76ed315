-- ===== src/Queue/Reservations.antt =====
-- The reservations of kernel/core/queue.c: making, cancelling, sealing and claiming one. `siphash` is
-- that of the kernel, under the key of the device. The timers are not modelled.
use melodi.Slots.{index}
use melodi.Queue.{Entry, Reservation, Namespace, Queue, no_peer_turn, no_flow_turn, no_reservation}
use melodi.Base.{
  ◌==◌, ◌!=◌, if◌then◌else◌, Errno, Result, length, get_or, set, u16, u32, ok, err, einval, enoent,
  ℕ, ◌+◌, ◌-◌, ◌*◌, ◌^◌, Bool, true, false, not, ◌&&◌, ◌||◌, Option, none, some, List, [], ◌∷◌,
  ◌++◌,
}

abbrev pub tx_data_limit : ℕ
tx_data_limit = 112

abbrev pub tx_byte_limit : ℕ
tx_byte_limit = 4096 * 64

-- MELODI_TX_PER_PEER_LIMIT, MELODI_TX_PER_SERVICE_LIMIT and MELODI_TX_PER_BINDING_LIMIT.
abbrev pub tx_share_limit : ℕ
tx_share_limit = 32

abbrev pub tx_namespace_limit : ℕ
tx_namespace_limit = 256

abbrev pub tx_namespace_byte_limit : ℕ
tx_namespace_byte_limit = 4096 * 128

abbrev pub pending_limit : ℕ
pending_limit = 32

abbrev pub ttl_default_ms : ℕ
ttl_default_ms = 30000

unfoldable pub sub16 : ℕ → ℕ → ℕ
sub16 a b = u16 (a + 2 ^ 16 - b)

unfoldable pub sub32 : ℕ → ℕ → ℕ
sub32 a b = u32 (a + 2 ^ 32 - b)

-- The list of namespaces.
unfoldable pub namespace_find : ℕ → List Namespace → Option Namespace
namespace_find net [] = none
namespace_find net (n ∷ ns) = if n.net == net then some n else namespace_find net ns

-- `none` where the memory for a new one is not to be had.
unfoldable pub namespace_get : Bool → ℕ → List Namespace → Option (List Namespace)
namespace_get allocated net ns = elim (namespace_find net ns) [
  | some _ ↦ some ns
  | none ↦
      if allocated then some (ns ++ record { net = net; messages = 0; bytes = 0 } ∷ []) else none
]

-- An update of the namespace that was found.
unfoldable pub namespace_update : ℕ → (Namespace → Namespace) → List Namespace → List Namespace
namespace_update net f [] = []
namespace_update net f (n ∷ ns) =
    let rest = namespace_update net f ns in if n.net == net then f n ∷ ns else n ∷ rest

unfoldable pub namespace_put : ℕ → List Namespace → List Namespace
namespace_put net [] = []
namespace_put net (n ∷ ns) =
    let rest = namespace_put net ns in
    if n.net == net then (if n.messages == 0 then ns else n ∷ ns) else n ∷ rest

unfoldable pub has_peer : Queue → ℕ → Bool
has_peer q peer =
    let in_queue = λ (e : Entry). e.active && not e.control && e.peer_index == peer in
    let reserved = λ (r : Reservation). r.active && r.peer_index == peer in
    elim (index in_queue q.schedule.tx_queue) [
      | some _ ↦ true
      | none ↦ elim (index reserved q.tx_reservations) [ some _ ↦ true | none ↦ false ]
    ]

unfoldable pub has_flow : Queue → ℕ → Bool
has_flow q flow =
    let in_queue = λ (e : Entry). e.active && not e.control && e.flow_index == flow in
    let reserved = λ (r : Reservation). r.active && r.flow_index == flow in
    elim (index in_queue q.schedule.tx_queue) [
      | some _ ↦ true
      | none ↦ elim (index reserved q.tx_reservations) [ some _ ↦ true | none ↦ false ]
    ]

unfoldable pub has_id : ℕ → Reservation → Bool
has_id id r = r.active && r.id == id

unfoldable pub reservation_find : Queue → ℕ → Option ℕ
reservation_find q id = index (has_id id) q.tx_reservations

unfoldable pub clear_flow : Queue → ℕ → Queue
clear_flow q flow = if has_flow q flow then q else record q {
  schedule = record q.schedule { tx_flows = set q.schedule.tx_flows flow no_flow_turn };
}

unfoldable pub clear_peer : Queue → ℕ → Queue
clear_peer q peer = if has_peer q peer then q else record q {
  schedule = record q.schedule { tx_peers = set q.schedule.tx_peers peer no_peer_turn };
}

-- `namespace->messages -= count; namespace->bytes -= bytes;`
abbrev pub charge_back : ℕ → ℕ → Namespace → Namespace
charge_back count bytes n = record n {
  messages = sub32 n.messages count;
  bytes = sub32 n.bytes bytes;
}

abbrev pub charge : ℕ → ℕ → Namespace → Namespace
charge count bytes n = record n {
  messages = u32 (n.messages + count);
  bytes = u32 (n.bytes + bytes);
}

-- The accounts without the reservation at an index, which is cleared.
unfoldable pub take_back : Queue → ℕ → Queue
take_back q i =
    let r = get_or q.tx_reservations i no_reservation in
    record q {
      tx_reserved_count = sub16 q.tx_reserved_count r.count;
      tx_reserved_bytes = sub32 q.tx_reserved_bytes r.bytes;
      tx_pending_reserved =
          if r.pending_reserved then sub16 q.tx_pending_reserved 1 else q.tx_pending_reserved;
      tx_reservations = set q.tx_reservations i no_reservation;
      namespaces = namespace_update r.net (charge_back r.count r.bytes) q.namespaces;
    }

-- `melodi_reservation_remove_locked`, by the index of the reservation.
unfoldable pub reservation_remove : Queue → ℕ → Queue
reservation_remove q i =
    let r = get_or q.tx_reservations i no_reservation in
    let cleared = clear_peer (clear_flow (take_back q i) r.flow_index) r.peer_index in
    record cleared { namespaces = namespace_put r.net cleared.namespaces }

-- What melodi_netlink_delivery_error is told.
pub record Notice : Type 0 where
  pub binding_generation : ℕ
  pub cookie : ℕ
  pub binding_portid : ℕ
  pub service : ℕ
  pub error : Errno

unfoldable pub notice_reservation : Reservation → Errno → Notice
notice_reservation r error = record {
  binding_generation = r.binding_generation;
  cookie = r.cookie;
  binding_portid = r.binding_portid;
  service = r.service;
  error = error;
}

-- With the notice that is sent, if any.
unfoldable pub reservation_cancel : Queue → ℕ → Errno → Bool → Queue × Option Notice
reservation_cancel q id error notify = elim (reservation_find q id) [
  | none ↦ (q, none)
  | some i ↦ (
    reservation_remove q i,
    if notify
        then some (notice_reservation (get_or q.tx_reservations i no_reservation) error)
        else none,
  )
]

-- The place in the table of pending messages is taken over by the message.
unfoldable pub reservation_pending : Queue → ℕ → Queue × Result (Unit {0})
reservation_pending q id = elim (reservation_find q id) [
  | none ↦ (q, err enoent)
  | some i ↦
      let r = get_or q.tx_reservations i no_reservation in
      if not r.pending_reserved then (q, err enoent) else (
        record q {
          tx_reservations = set q.tx_reservations i (record r { pending_reserved = false });
          tx_pending_reserved = sub16 q.tx_pending_reserved 1;
        },
        ok tt,
      )
]

unfoldable pub reservation_locator : Queue → ℕ → Result ℕ
reservation_locator q id = elim (reservation_find q id) [
  | none ↦ err enoent
  | some i ↦ ok ((get_or q.tx_reservations i no_reservation).locator)
]

-- `siphash` is that of the kernel under the key of the device; `data` is its octets.
module _ (siphash : List ℕ → ℕ) where
  unfoldable pub reservation_seal : Queue → ℕ → List ℕ → Queue × Result (Unit {0})
  reservation_seal q id octets =
      if length octets == 0 then (q, err einval) else elim (reservation_find q id) [
        | none ↦ (q, err enoent)
        | some i ↦
            let r = get_or q.tx_reservations i no_reservation in
            if r.sealed then (q, err enoent) else (
              record q {
                tx_reservations =
                    set q.tx_reservations i (record r { tag = siphash octets; sealed = true });
              },
              ok tt,
            )
      ]

  unfoldable pub reservation_claim : Queue → ℕ → List ℕ → Queue × Result (Unit {0})
  reservation_claim q id octets =
      if length octets == 0 then (q, err einval) else elim (reservation_find q id) [
        | none ↦ (q, err enoent)
        | some i ↦
            let r = get_or q.tx_reservations i no_reservation in
            if not r.sealed || r.claimed || r.tag != siphash octets then (q, err enoent) else (
              record q { tx_reservations = set q.tx_reservations i (record r { claimed = true }) },
              ok tt,
            )
      ]
