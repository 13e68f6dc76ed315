-- ===== src/Queue/Ledger.antt =====
-- Sequences of operations on the reservations, and the accounts after them.
use melodi.Slots.Index.{index-lt, hit-index}
use melodi.Queue.{Queue, no_reservation}
use melodi.Queue.Reservations.{
  sub16, has_id, reservation_find, reservation_cancel, reservation_pending, reservation_seal,
  reservation_claim,
}
use melodi.Queue.Reserve.{Asked, reserve}
use melodi.Queue.Accounts.{
  IsAccounts, replaced, has_id-active, reservation_remove-IsAccounts, kept-IsAccounts,
  pending_within,
}
use melodi.Base.{
  ◌==◌, ◌!=◌, Bool-cases, Option-cases, Errno, length, get_or, ℕ, ◌<◌, ◌≡◌, refl, inl, inr, Bool,
  true, false, not, ◌||◌, some, List, [], ◌∷◌, arith,
}
use melodi.Queue.Granted.{reserve-IsAccounts}

-- What the operations find under an id.
module _ (q : Queue) (id i : ℕ) (at : reservation_find q id ≡ some i) where
  find-lt : i < length q.tx_reservations
  unfolding reservation_find
  find-lt = index-lt (has_id id) q.tx_reservations i at

  find-active : (get_or q.tx_reservations i no_reservation).active ≡ true
  unfolding reservation_find
  find-active =
      has_id-active id (get_or q.tx_reservations i no_reservation)
        (hit-index (has_id id) q.tx_reservations i no_reservation at)

module _ (siphash : List ℕ → ℕ) (q : Queue) (v : IsAccounts q) (id : ℕ) where
  cancel-IsAccounts :
      (error : Errno) (notify : Bool) → IsAccounts (reservation_cancel q id error notify).0
  unfolding reservation_cancel
  cancel-IsAccounts error notify = elim (Option-cases (reservation_find q id)) [
    | inl gone ↦ rw (gone, reservation_cancel) v
    | inr (i, at) ↦
        rw (at, reservation_cancel)
          (reservation_remove-IsAccounts q v i (find-lt q id i at) (find-active q id i at))
  ]

  pending-IsAccounts : IsAccounts (reservation_pending q id).0
  unfolding reservation_pending sub16
  pending-IsAccounts = elim (Option-cases (reservation_find q id)) [
    | inl gone ↦ rw (gone, reservation_pending) v
    | inr (i, at) ↦
        let r = get_or q.tx_reservations i no_reservation in
        let lt = find-lt q id i at in
        elim (Bool-cases (not r.pending_reserved)) [
          | inl taken ↦ rw (at, reservation_pending, taken) v
          | inr held ↦
              let within = pending_within q v i lt in
              let on = find-active q id i at in
              rw (at, reservation_pending, held)
                (replaced q v i lt (record r { pending_reserved = false }) q.tx_reserved_count
                  q.tx_reserved_bytes (sub16 q.tx_pending_reserved 1) refl refl
                  (ground (arith, held, within, on, v.pending_fit)) v.frames_fit v.bytes_fit
                  (ground (arith, held, within, on, v.pending_fit)))
        ]
  ]

  seal-IsAccounts : (octets : List ℕ) → IsAccounts (reservation_seal siphash q id octets).0
  unfolding reservation_seal
  seal-IsAccounts octets = elim (Bool-cases (length octets == 0)) [
    | inl empty ↦ rw (empty, reservation_seal) v
    | inr some_octets ↦ elim (Option-cases (reservation_find q id)) [
      | inl gone ↦ rw (some_octets, gone, reservation_seal) v
      | inr (i, at) ↦
          let r = get_or q.tx_reservations i no_reservation in
          elim (Bool-cases r.sealed) [
            | inl done ↦ rw (some_octets, at, reservation_seal, done) v
            | inr fresh ↦
                rw (some_octets, at, reservation_seal, fresh)
                  (kept-IsAccounts q v i (find-lt q id i at)
                    (record r { tag = siphash octets; sealed = true }) refl refl refl)
          ]
    ]
  ]

  claim-IsAccounts : (octets : List ℕ) → IsAccounts (reservation_claim siphash q id octets).0
  unfolding reservation_claim
  claim-IsAccounts octets = elim (Bool-cases (length octets == 0)) [
    | inl empty ↦ rw (empty, reservation_claim) v
    | inr some_octets ↦ elim (Option-cases (reservation_find q id)) [
      | inl gone ↦ rw (some_octets, gone, reservation_claim) v
      | inr (i, at) ↦
          let r = get_or q.tx_reservations i no_reservation in
          elim (Bool-cases (not r.sealed || r.claimed || r.tag != siphash octets)) [
            | inl refused ↦ rw (some_octets, at, reservation_claim, refused) v
            | inr fresh ↦
                rw (some_octets, at, reservation_claim, fresh)
                  (kept-IsAccounts q v i (find-lt q id i at) (record r { claimed = true }) refl refl
                    refl)
          ]
    ]
  ]

-- The operations on the reservations, with their arguments.
pub data Operation : Type 0 where
  to_reserve : Asked → Operation
  to_cancel : (id : ℕ) (error : Errno) (notify : Bool) → Operation
  to_pending : (id : ℕ) → Operation
  to_seal to_claim : (id : ℕ) (octets : List ℕ) → Operation

module _ (siphash : List ℕ → ℕ) where
  unfoldable pub operate : Queue → Operation → Queue
  operate q (to_reserve a) = (reserve q a).0
  operate q (to_cancel id error notify) = (reservation_cancel q id error notify).0
  operate q (to_pending id) = (reservation_pending q id).0
  operate q (to_seal id octets) = (reservation_seal siphash q id octets).0
  operate q (to_claim id octets) = (reservation_claim siphash q id octets).0

  unfoldable pub operate_all : Queue → List Operation → Queue
  operate_all q [] = q
  operate_all q (op ∷ ops) = operate_all (operate q op) ops

  operate-IsAccounts : (q : Queue) (op : Operation) → IsAccounts q → IsAccounts (operate q op)
  unfolding operate
  operate-IsAccounts q (to_reserve a) v = reserve-IsAccounts q a v
  operate-IsAccounts q (to_cancel id error notify) v = cancel-IsAccounts siphash q v id error notify
  operate-IsAccounts q (to_pending id) v = pending-IsAccounts siphash q v id
  operate-IsAccounts q (to_seal id octets) v = seal-IsAccounts siphash q v id octets
  operate-IsAccounts q (to_claim id octets) v = claim-IsAccounts siphash q v id octets

  -- Over any sequence of reserving, cancelling, taking over, sealing and claiming, with any arguments,
  -- the counters of the device are the sums over its active entries and reservations: no counter wraps
  -- round, the frames queued and reserved stay within 128 and 256 KiB, and no more than 32 places for
  -- pending messages are reserved.
  pub operate_all-IsAccounts :
      (q : Queue) (ops : List Operation) → IsAccounts q → IsAccounts (operate_all q ops)
  unfolding operate_all
  operate_all-IsAccounts q [] v = v
  operate_all-IsAccounts q (op ∷ ops) v =
      operate_all-IsAccounts (operate q op) ops (operate-IsAccounts q op v)
