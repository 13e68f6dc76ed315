-- ===== src/Queue/Accounts.antt =====
-- The counters of kernel/core/queue.c, and the sums over the entries and reservations.
use melodi.Slots.{total}
use melodi.Slots.Update.{total-set, get_or-le-total}
use melodi.Queue.{Entry, Reservation, Queue, no_reservation}
use melodi.Queue.Reservations.{
  sub16, sub32, has_id, take_back, reservation_remove, clear_flow, clear_peer, has_flow, has_peer,
}
use melodi.Base.{
  if◌then◌else◌, Bool-cases, length, get_or, set, ℕ, ◌+◌, ◌*◌, ◌≤◌, ◌<◌, ◌≡◌, inl, inr, true, ◌&&◌,
  List, arith,
}

-- What each entry and each reservation counts for.
abbrev pub entry_count : Entry → ℕ
entry_count e = if e.active then 1 else 0

abbrev pub entry_bytes : Entry → ℕ
entry_bytes e = if e.active then e.length else 0

abbrev pub reserved_count : Reservation → ℕ
reserved_count r = if r.active then r.count else 0

abbrev pub reserved_bytes : Reservation → ℕ
reserved_bytes r = if r.active then r.bytes else 0

abbrev pub reserved_pending : Reservation → ℕ
reserved_pending r = if r.active && r.pending_reserved then 1 else 0

pub record Balanced (es : List Entry) (rs : List Reservation)
    (queued queued_bytes held held_bytes pending : ℕ) : Type 0 where
  pub queued_eq : queued ≡ total entry_count es
  pub queued_bytes_eq : queued_bytes ≡ total entry_bytes es
  pub held_eq : held ≡ total reserved_count rs
  pub held_bytes_eq : held_bytes ≡ total reserved_bytes rs
  pub pending_eq : pending ≡ total reserved_pending rs
  pub frames_fit : queued + held ≤ 128
  pub bytes_fit : queued_bytes + held_bytes ≤ 4096 * 64
  pub pending_fit : pending ≤ 32

abbrev pub IsAccounts : Queue → Type 0
IsAccounts q =
    Balanced q.schedule.tx_queue q.tx_reservations q.tx_queue_count q.tx_queue_bytes
      q.tx_reserved_count q.tx_reserved_bytes q.tx_pending_reserved

pub clear_flow-IsAccounts : (q : Queue) (flow : ℕ) → IsAccounts q → IsAccounts (clear_flow q flow)
unfolding clear_flow
clear_flow-IsAccounts q flow v = elim (Bool-cases (has_flow q flow)) [
  | inl used ↦ rw used v
  | inr free ↦ rw free v
]

pub clear_peer-IsAccounts : (q : Queue) (peer : ℕ) → IsAccounts q → IsAccounts (clear_peer q peer)
unfolding clear_peer
clear_peer-IsAccounts q peer v = elim (Bool-cases (has_peer q peer)) [
  | inl used ↦ rw used v
  | inr free ↦ rw free v
]

-- Replacing one reservation.
module _ (q : Queue) (v : IsAccounts q) (i : ℕ) (lt : i < length q.tx_reservations)
    (r : Reservation) where
  pub replaced :
      (held held_bytes pending : ℕ)
      → held + reserved_count (get_or q.tx_reservations i no_reservation)
        ≡ q.tx_reserved_count + reserved_count r
      → held_bytes + reserved_bytes (get_or q.tx_reservations i no_reservation)
        ≡ q.tx_reserved_bytes + reserved_bytes r
      → pending + reserved_pending (get_or q.tx_reservations i no_reservation)
        ≡ q.tx_pending_reserved + reserved_pending r
      → q.tx_queue_count + held ≤ 128
      → q.tx_queue_bytes + held_bytes ≤ 4096 * 64
      → pending ≤ 32
      → Balanced q.schedule.tx_queue
          (set q.tx_reservations i r)
          q.tx_queue_count
          q.tx_queue_bytes
          held
          held_bytes
          pending
  replaced held held_bytes pending a b c fit_a fit_b fit_c = record {
    queued_eq = v.queued_eq;
    queued_bytes_eq = v.queued_bytes_eq;
    held_eq =
        omega (arith, v.held_eq, total-set reserved_count q.tx_reservations i r no_reservation lt);
    held_bytes_eq =
        omega (
          arith,
          v.held_bytes_eq,
          total-set reserved_bytes q.tx_reservations i r no_reservation lt,
        );
    pending_eq =
        omega
          (arith, v.pending_eq, total-set reserved_pending q.tx_reservations i r no_reservation lt);
    frames_fit = fit_a;
    bytes_fit = fit_b;
    pending_fit = fit_c;
  }

pub has_id-active : (id : ℕ) (r : Reservation) → has_id id r ≡ true → r.active ≡ true
unfolding has_id
has_id-active id r h = ground arith

-- What an active reservation counts for is part of the counters.
module _ (q : Queue) (v : IsAccounts q) (i : ℕ) (lt : i < length q.tx_reservations) where
  count_within : reserved_count (get_or q.tx_reservations i no_reservation) ≤ q.tx_reserved_count
  count_within =
      omega (arith, v.held_eq, get_or-le-total reserved_count q.tx_reservations i no_reservation lt)

  bytes_within : reserved_bytes (get_or q.tx_reservations i no_reservation) ≤ q.tx_reserved_bytes
  bytes_within =
      omega (
        arith,
        v.held_bytes_eq,
        get_or-le-total reserved_bytes q.tx_reservations i no_reservation lt,
      )

  pub pending_within :
      reserved_pending (get_or q.tx_reservations i no_reservation) ≤ q.tx_pending_reserved
  pending_within =
      omega (
        arith,
        v.pending_eq,
        get_or-le-total reserved_pending q.tx_reservations i no_reservation lt,
      )

  take_back-IsAccounts :
      (get_or q.tx_reservations i no_reservation).active ≡ true → IsAccounts (take_back q i)
  unfolding take_back sub16 sub32
  take_back-IsAccounts on =
      let r = get_or q.tx_reservations i no_reservation in
      let pending =
        if r.pending_reserved then sub16 q.tx_pending_reserved 1 else q.tx_pending_reserved in
      replaced q v i lt no_reservation (sub16 q.tx_reserved_count r.count)
        (sub32 q.tx_reserved_bytes r.bytes) pending (ground (arith, on, count_within, v.frames_fit))
        (ground (arith, on, bytes_within, v.bytes_fit))
        (ground (arith, on, pending_within, v.pending_fit))
        (ground (arith, on, count_within, v.frames_fit))
        (ground (arith, on, bytes_within, v.bytes_fit))
        (ground (arith, on, pending_within, v.pending_fit))

  pub reservation_remove-IsAccounts :
      (get_or q.tx_reservations i no_reservation).active ≡ true
      → IsAccounts (reservation_remove q i)
  unfolding reservation_remove
  reservation_remove-IsAccounts on =
      let r = get_or q.tx_reservations i no_reservation in
      clear_peer-IsAccounts (clear_flow (take_back q i) r.flow_index) r.peer_index
        (clear_flow-IsAccounts (take_back q i) r.flow_index (take_back-IsAccounts on))

  -- A change of a reservation that keeps what it counts for.
  pub kept-IsAccounts :
      (r : Reservation)
      → reserved_count r ≡ reserved_count (get_or q.tx_reservations i no_reservation)
      → reserved_bytes r ≡ reserved_bytes (get_or q.tx_reservations i no_reservation)
      → reserved_pending r ≡ reserved_pending (get_or q.tx_reservations i no_reservation)
      → IsAccounts (record q { tx_reservations = set q.tx_reservations i r })
  kept-IsAccounts r a b c =
      replaced q v i lt r q.tx_reserved_count q.tx_reserved_bytes q.tx_pending_reserved
        (omega (arith, a)) (omega (arith, b)) (omega (arith, c)) v.frames_fit v.bytes_fit
        v.pending_fit
