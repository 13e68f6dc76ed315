-- ===== src/Queue/Granted.antt =====
-- melodi_queue_reserve of kernel/core/queue.c, and the accounts after it.
use melodi.Slots.{index}
use melodi.Slots.Index.{index-lt, hit-index}
use melodi.Queue.{Reservation, Request, Namespace, Queue, no_reservation, tx_queue_limit}
use melodi.Queue.Reservations.{
  tx_data_limit, tx_byte_limit, tx_share_limit, tx_namespace_limit, tx_namespace_byte_limit,
  pending_limit, ttl_default_ms, namespace_find, namespace_get,
}
use melodi.Queue.Reserve.{
  Asked, Place, bool_eq, room, capacity, reserve_checks, write_reservation, reserve_in, reserve,
  peer_locked, flow_locked, old_place, new_place, close_peer, close_flow, place_index, made,
}
use melodi.Queue.Accounts.{IsAccounts, replaced, clear_flow-IsAccounts, clear_peer-IsAccounts}
use melodi.Base.{
  ltb, leb, ◌==◌, if◌then◌else◌, Bool-cases, Option-cases, Result-cases, reject-ok, length, get_or,
  u16, u32, u64_max, ok, err, einval, enospc, eoverflow, enomem, enobufs, enetdown, ℕ, ◌+◌, ◌-◌,
  ◌*◌, ◌≤◌, ◌<◌, ◌≡◌, refl, ◌∙◌, inl, inr, true, false, not, ◌&&◌, ◌||◌, some, arith,
}

room-fits :
    (q : Queue) (n : Namespace) (locator : ℕ) (request : Request) (count bytes : ℕ) {u : Unit {0}}
    → room q n locator request count bytes ≡ ok u
    → (q.tx_queue_count + q.tx_reserved_count + count ≤ 128)
      × (q.tx_queue_bytes + q.tx_reserved_bytes + bytes ≤ 4096 * 64)
unfolding room
room-fits q n locator request count bytes h =
    let (small, h1) =
      reject-ok
        (ltb tx_queue_limit count
          || ltb tx_byte_limit bytes
          || ltb tx_namespace_limit count
          || ltb tx_namespace_byte_limit bytes)
        enobufs _ h in
    let (_, h2) =
      reject-ok (not request.control && (ltb tx_data_limit count || ltb tx_share_limit count))
        enobufs _ h1 in
    let (fits, _) =
      reject-ok
        (ltb (tx_queue_limit - count) (q.tx_queue_count + q.tx_reserved_count)
          || ltb (tx_byte_limit - bytes) (q.tx_queue_bytes + q.tx_reserved_bytes)
          || ltb (tx_namespace_limit - count) n.messages
          || ltb (tx_namespace_byte_limit - bytes) n.bytes)
        enobufs _ h2 in
    (ground (arith, small, fits), ground (arith, small, fits))

-- A message that passed the check of the capacity fits the queue.
capacity-fits :
    (q : Queue) (net locator : ℕ) (request : Request) (count bytes : ℕ) {u : Unit {0}}
    → capacity q net locator request count bytes ≡ ok u
    → (q.tx_queue_count + q.tx_reserved_count + count ≤ 128)
      × (q.tx_queue_bytes + q.tx_reserved_bytes + bytes ≤ 4096 * 64)
unfolding capacity
capacity-fits q net locator request count bytes h =
    elim (Option-cases (namespace_find net q.namespaces)) [
      | inl gone ↦
          let none_there : capacity q net locator request count bytes ≡ err enomem =
            rw (gone, capacity) refl in
          ground (arith, h, none_there)
      | inr (n, there) ↦
          let asked : room q n locator request count bytes
              ≡ capacity q net locator request count bytes =
            rw (there, capacity) refl in
          room-fits q n locator request count bytes (asked ∙ h)
    ]

-- The checks leave room for a pending message, and find an entry that is not in use.
pub reserve_checks-ok :
    (q : Queue) (a : Asked) (i : ℕ)
    → reserve_checks q a ≡ ok i
    → (a.reliable ≡ true → q.tx_pending_reserved < 32)
      × (index (λ (r : Reservation). not r.active) q.tx_reservations ≡ some i)
unfolding reserve_checks
reserve_checks-ok q a i h =
    let (_, h1) =
      reject-ok
        (a.count == 0
          || a.bytes == 0
          || a.request.control
          || a.request.ttl_ms == 0
          || not (bool_eq a.request.reliable a.reliable)
          || ltb ttl_default_ms a.request.ttl_ms)
        einval _ h in
    let (_, h2) = reject-ok (ltb (u64_max - a.request.ttl_ms) a.now) eoverflow _ h1 in
    let (_, h3) = reject-ok q.tx_queue_stopping enetdown _ h2 in
    let (left, h4) =
      reject-ok (a.reliable && leb pending_limit (a.active_pending + q.tx_pending_reserved)) enospc
        _ h3 in
    (
      λ on. ground (arith, left, on),
      elim (Option-cases (index (λ (r : Reservation). not r.active) q.tx_reservations)) [
        | inl full ↦ ground (arith, h4, full)
        | inr (j, at) ↦ at ∙ ground (arith, h4, at)
      ],
    )

write_reservation-IsAccounts :
    (q : Queue) (a : Asked) (i : ℕ) (peer flow : Place)
    → IsAccounts q
    → i < length q.tx_reservations
    → (get_or q.tx_reservations i no_reservation).active ≡ false
    → (a.reliable ≡ true → q.tx_pending_reserved < 32)
    → q.tx_queue_count + q.tx_reserved_count + a.count ≤ 128
    → q.tx_queue_bytes + q.tx_reserved_bytes + a.bytes ≤ 4096 * 64
    → IsAccounts (write_reservation q a i peer flow)
unfolding write_reservation
write_reservation-IsAccounts q a i peer flow v lt free room_left frames bytes =
    replaced q v i lt
      (made (get_or q.tx_reservations i no_reservation) q a.now a.net a.locator a.request a.count
        a.bytes a.logical_length a.cookie a.reliable (place_index peer) (place_index flow))
      (u16 (q.tx_reserved_count + a.count)) (u32 (q.tx_reserved_bytes + a.bytes))
      (if a.reliable then u16 (q.tx_pending_reserved + 1) else q.tx_pending_reserved)
      (ground (arith, free)) (ground (arith, free)) (ground (arith, free, room_left, v.pending_fit))
      (ground arith) (ground arith) (ground (arith, room_left, v.pending_fit))

close_peer-IsAccounts : (p : Place) (q : Queue) → IsAccounts q → IsAccounts (close_peer p q)
close_peer-IsAccounts (old_place i) q v = v
close_peer-IsAccounts (new_place i) q v = clear_peer-IsAccounts q i v

close_flow-IsAccounts : (p : Place) (q : Queue) → IsAccounts q → IsAccounts (close_flow p q)
close_flow-IsAccounts (old_place i) q v = v
close_flow-IsAccounts (new_place i) q v = clear_flow-IsAccounts q i v

reserve_in-IsAccounts :
    (q : Queue) (a : Asked) (i : ℕ)
    → IsAccounts q
    → reserve_checks q a ≡ ok i
    → IsAccounts (reserve_in q a i).0
unfolding reserve_in
reserve_in-IsAccounts q a i v checked =
    let (left, free) = reserve_checks-ok q a i checked in
    let unused = λ (r : Reservation). not r.active in
    let lt = index-lt unused q.tx_reservations i free in
    let off = hit-index unused q.tx_reservations i no_reservation free in
    elim (Result-cases (capacity q a.net a.locator a.request a.count a.bytes)) [
      | inl (e, refused) ↦ rw (refused, reserve_in) v
      | inr (u, fits) ↦
          let (frames, bytes) = capacity-fits q a.net a.locator a.request a.count a.bytes fits in
          elim (Result-cases (peer_locked q a.locator)) [
            | inl (e, refused) ↦ rw (fits, refused, reserve_in) v
            | inr (peer, at_peer) ↦ elim (Result-cases (flow_locked q a.locator a.request)) [
              | inl (e, refused) ↦
                  rw (fits, at_peer, refused, reserve_in) (close_peer-IsAccounts peer q v)
              | inr (flow, at_flow) ↦ elim (Bool-cases (q.tx_reservation_sequence == u64_max)) [
                | inl full ↦
                    rw (fits, at_peer, at_flow, full, reserve_in)
                      (close_peer-IsAccounts peer (close_flow flow q)
                        (close_flow-IsAccounts flow q v))
                | inr next ↦
                    rw (fits, at_peer, at_flow, next, reserve_in)
                      (write_reservation-IsAccounts q a i peer flow v lt (ground (arith, off)) left
                        frames bytes)
              ]
            ]
          ]
    ]

pub reserve-IsAccounts : (q : Queue) (a : Asked) → IsAccounts q → IsAccounts (reserve q a).0
unfolding reserve reserve_checks
reserve-IsAccounts q a v = elim (Result-cases (reserve_checks q a)) [
  | inl (e, refused) ↦ rw (refused, reserve) v
  | inr (i, checked) ↦ elim (Option-cases (namespace_get a.allocated a.net q.namespaces)) [
    | inl full ↦ rw (checked, full, reserve) v
    | inr (ns, there) ↦
        rw (checked, there, reserve)
          (reserve_in-IsAccounts (record q { namespaces = ns }) a i v checked)
  ]
]
