-- ===== src/Queue/Once.antt =====
-- The ids of the reservations over sequences of operations, and what claims one.
use melodi.Slots.{index, count}
use melodi.Slots.Index.{index-lt, hit-index, round_zero, round_suc}
use melodi.Slots.Update.{count-set}
use melodi.Queue.{Reservation, Queue, Namespace, no_reservation}
use melodi.Queue.Reservations.{
  has_id, reservation_find, reservation_remove, take_back, clear_flow, clear_peer, has_flow,
  has_peer, reservation_cancel, reservation_pending, reservation_seal, reservation_claim,
  namespace_get,
}
use melodi.Queue.Reserve.{
  Asked, Place, old_place, new_place, close_peer, close_flow, reserve_checks, reserve, reserve_in,
  write_reservation, capacity, peer_locked, flow_locked,
}
use melodi.Queue.Granted.{reserve_checks-ok}
use melodi.Queue.Ledger.{
  Operation, to_reserve, to_cancel, to_pending, to_seal, to_claim, operate, operate_all,
}
use melodi.Queue.Sealing.{reservation_at, claim_lem, claimed_lem, claim_empty}
use native.Mathlib.Decide.{ℕ_discrete}
use melodi.Base.{
  ◌==◌, ◌!=◌, if◌then◌else◌, Bool-cases, Option-cases, Result-cases, Errno, length, set, All,
  All_get, All-mono, u64_max, ok, err, einval, enoent, ℕ, zero, suc, ◌+◌, ◌≤◌, ◌<◌, ◌≡◌, refl, sym,
  ◌∙◌, subst, inl, inr, Bool, true, false, not, ◌||◌, none, some, List, [], ◌∷◌, arith,
}

-- What the ids depend on.
abbrev held : Queue → List Reservation × ℕ
held q = (q.tx_reservations, q.tx_reservation_sequence)

-- What an operation does to the reservations. One that is still active after it was so before, under
-- the same id, and stays claimed; a new one has the next id.
data Change (q q' : Queue) : Type 0 where
  same : held q' ≡ held q → Change q q'
  rewritten :
      (i : ℕ) (r : Reservation)
      → i < length q.tx_reservations
      → (r.active ≡ true
          → ((reservation_at q i).active ≡ true)
            × (r.id ≡ (reservation_at q i).id)
            × ((reservation_at q i).claimed ≡ true → r.claimed ≡ true))
      → held q' ≡ (set q.tx_reservations i r, q.tx_reservation_sequence)
      → Change q q'
  added :
      (i : ℕ) (r : Reservation)
      → i < length q.tx_reservations
      → (reservation_at q i).active ≡ false
      → r.id ≡ q.tx_reservation_sequence + 1
      → held q' ≡ (set q.tx_reservations i r, q.tx_reservation_sequence + 1)
      → Change q q'

held-clear_peer : (q : Queue) (peer : ℕ) → held (clear_peer q peer) ≡ held q
unfolding clear_peer
held-clear_peer q peer = elim (Bool-cases (has_peer q peer)) [
  | inl used ↦ rw used refl
  | inr free ↦ rw free refl
]

held-clear_flow : (q : Queue) (flow : ℕ) → held (clear_flow q flow) ≡ held q
unfolding clear_flow
held-clear_flow q flow = elim (Bool-cases (has_flow q flow)) [
  | inl used ↦ rw used refl
  | inr free ↦ rw free refl
]

held-close_peer : (p : Place) (q : Queue) → held (close_peer p q) ≡ held q
held-close_peer (old_place i) q = refl
held-close_peer (new_place i) q = held-clear_peer q i

held-close_flow : (p : Place) (q : Queue) → held (close_flow p q) ≡ held q
held-close_flow (old_place i) q = refl
held-close_flow (new_place i) q = held-clear_flow q i

held-reservation_remove :
    (q : Queue) (i : ℕ)
    → held (reservation_remove q i)
      ≡ (set q.tx_reservations i no_reservation, q.tx_reservation_sequence)
unfolding reservation_remove take_back
held-reservation_remove q i =
    let r = reservation_at q i in
    held-clear_peer (clear_flow (take_back q i) r.flow_index) r.peer_index
    ∙ held-clear_flow (take_back q i) r.flow_index

reserve_in-Change :
    (q : Queue) (a : Asked) (i : ℕ)
    → i < length q.tx_reservations
    → (reservation_at q i).active ≡ false
    → Change q (reserve_in q a i).0
unfolding reserve_in write_reservation
reserve_in-Change q a i lt off =
    elim (Result-cases (capacity q a.net a.locator a.request a.count a.bytes)) [
      | inl (e, refused) ↦ rw (refused, reserve_in) (same refl)
      | inr (u, fits) ↦ elim (Result-cases (peer_locked q a.locator)) [
        | inl (e, refused) ↦ rw (fits, refused, reserve_in) (same refl)
        | inr (peer, at_peer) ↦ elim (Result-cases (flow_locked q a.locator a.request)) [
          | inl (e, refused) ↦
              rw (fits, at_peer, refused, reserve_in) (same (held-close_peer peer q))
          | inr (flow, at_flow) ↦ elim (Bool-cases (q.tx_reservation_sequence == u64_max)) [
            | inl full ↦
                rw (fits, at_peer, at_flow, full, reserve_in)
                  (same (held-close_peer peer (close_flow flow q) ∙ held-close_flow flow q))
            | inr next ↦ rw (fits, at_peer, at_flow, next, reserve_in) (added i _ lt off refl refl)
          ]
        ]
      ]
    ]

from_namespaces :
    (q : Queue) (ns : List Namespace) {q' : Queue}
    → Change (record q { namespaces = ns }) q'
    → Change q q'
from_namespaces q ns (same h) = same h
from_namespaces q ns (rewritten i r lt kept h) = rewritten i r lt kept h
from_namespaces q ns (added i r lt off next h) = added i r lt off next h

reserve-Change : (q : Queue) (a : Asked) → Change q (reserve q a).0
unfolding reserve
reserve-Change q a = elim (Result-cases (reserve_checks q a)) [
  | inl (e, refused) ↦ rw (refused, reserve) (same refl)
  | inr (i, checked) ↦
      let (_, free) = reserve_checks-ok q a i checked in
      let unused = λ (r : Reservation). not r.active in
      let off = hit-index unused q.tx_reservations i no_reservation free in
      elim (Option-cases (namespace_get a.allocated a.net q.namespaces)) [
        | inl full ↦ rw (checked, full, reserve) (same refl)
        | inr (ns, there) ↦
            rw (checked, there, reserve)
              (from_namespaces q ns (
                reserve_in-Change (record q { namespaces = ns }) a i
                  (index-lt unused q.tx_reservations i free) (ground (arith, off))))
      ]
]

module _ (siphash : List ℕ → ℕ) (q : Queue) (id : ℕ) where
  found-lt : (i : ℕ) → reservation_find q id ≡ some i → i < length q.tx_reservations
  unfolding reservation_find
  found-lt i at = index-lt (has_id id) q.tx_reservations i at

  cancel-Change :
      (error : Errno) (notify : Bool) → Change q (reservation_cancel q id error notify).0
  unfolding reservation_cancel
  cancel-Change error notify = elim (Option-cases (reservation_find q id)) [
    | inl gone ↦ rw (gone, reservation_cancel) (same refl)
    | inr (i, at) ↦
        rw (at, reservation_cancel)
          (rewritten i no_reservation (found-lt i at) (λ on. absurd (ground arith))
            (held-reservation_remove q i))
  ]

  pending-Change : Change q (reservation_pending q id).0
  unfolding reservation_pending
  pending-Change = elim (Option-cases (reservation_find q id)) [
    | inl gone ↦ rw (gone, reservation_pending) (same refl)
    | inr (i, at) ↦ elim (Bool-cases (not (reservation_at q i).pending_reserved)) [
      | inl taken ↦ rw (at, reservation_pending, taken) (same refl)
      | inr there ↦
          rw (at, reservation_pending, there)
            (rewritten i (record (reservation_at q i) { pending_reserved = false }) (found-lt i at)
              (λ on. (on, refl, λ c. c)) refl)
    ]
  ]

  seal-Change : (octets : List ℕ) → Change q (reservation_seal siphash q id octets).0
  unfolding reservation_seal
  seal-Change octets = elim (Bool-cases (length octets == 0)) [
    | inl empty ↦ rw (empty, reservation_seal) (same refl)
    | inr some_octets ↦ elim (Option-cases (reservation_find q id)) [
      | inl gone ↦ rw (some_octets, gone, reservation_seal) (same refl)
      | inr (i, at) ↦ elim (Bool-cases (reservation_at q i).sealed) [
        | inl before ↦ rw (some_octets, at, reservation_seal, before) (same refl)
        | inr fresh ↦
            rw (some_octets, at, reservation_seal, fresh)
              (rewritten i (record (reservation_at q i) { tag = siphash octets; sealed = true })
                (found-lt i at) (λ on. (on, refl, λ c. c)) refl)
      ]
    ]
  ]

  claim-Change : (octets : List ℕ) → Change q (reservation_claim siphash q id octets).0
  unfolding reservation_claim
  claim-Change octets = elim (Bool-cases (length octets == 0)) [
    | inl empty ↦ rw (empty, reservation_claim) (same refl)
    | inr some_octets ↦ elim (Option-cases (reservation_find q id)) [
      | inl gone ↦ rw (some_octets, gone, reservation_claim) (same refl)
      | inr (i, at) ↦
          let r = reservation_at q i in
          elim (Bool-cases (not r.sealed || r.claimed || r.tag != siphash octets)) [
            | inl refused ↦ rw (some_octets, at, reservation_claim, refused) (same refl)
            | inr fresh ↦
                rw (some_octets, at, reservation_claim, fresh)
                  (rewritten i (record r { claimed = true }) (found-lt i at)
                    (λ on. (on, refl, λ c. refl)) refl)
          ]
    ]
  ]

operate-Change :
    (siphash : List ℕ → ℕ) (q : Queue) (op : Operation) → Change q (operate siphash q op)
unfolding operate
operate-Change siphash q (to_reserve a) = reserve-Change q a
operate-Change siphash q (to_cancel id error notify) = cancel-Change siphash q id error notify
operate-Change siphash q (to_pending id) = pending-Change siphash q id
operate-Change siphash q (to_seal id octets) = seal-Change siphash q id octets
operate-Change siphash q (to_claim id octets) = claim-Change siphash q id octets

-- An id is that of one active reservation at most, and no id is ahead of the sequence.
record Numbered (rs : List Reservation) (sequence : ℕ) : Type 0 where
  single : (id : ℕ) → count (has_id id) rs ≤ 1
  known : All (λ r. r.active ≡ true → r.id ≤ sequence) rs

-- The id was given, and whoever has it is claimed.
record Spent (id : ℕ) (rs : List Reservation) (sequence : ℕ) : Type 0 where
  given : id ≤ sequence
  claimed : All (λ r. has_id id r ≡ true → r.claimed ≡ true) rs

set-All :
    {E : Type 0} (P : E → Type 0) (es : List E) (i : ℕ) (v : E)
    → All P es
    → P v
    → All P (set es i v)
set-All P [] i v all new = tt
set-All P (e ∷ es) zero v all new = (new, all.1)
set-All P (e ∷ es) (suc i) v all new = (all.0, set-All P es i v all.1 new)

count-zero :
    (id : ℕ) (rs : List Reservation) → All (λ r. has_id id r ≡ false) rs → count (has_id id) rs ≡ 0
unfolding count
count-zero id [] all = refl
count-zero id (r ∷ rs) all = ground (arith, all.0, count-zero id rs all.1)

module _ (q : Queue) where
  rewritten-Numbered :
      (i : ℕ) (r : Reservation)
      → i < length q.tx_reservations
      → (r.active ≡ true
          → ((reservation_at q i).active ≡ true)
            × (r.id ≡ (reservation_at q i).id)
            × ((reservation_at q i).claimed ≡ true → r.claimed ≡ true))
      → Numbered q.tx_reservations q.tx_reservation_sequence
      → Numbered (set q.tx_reservations i r) q.tx_reservation_sequence
  unfolding has_id
  rewritten-Numbered i r lt kept v = record {
    single = λ id.
        ground
          (arith, count-set (has_id id) q.tx_reservations i r no_reservation lt, v.single id, kept);
    known =
        set-All (λ w. w.active ≡ true → w.id ≤ q.tx_reservation_sequence) q.tx_reservations i r
          v.known
          (λ on.
            let (before, same_id, _) = kept on in
            omega (
              arith,
              same_id,
              All_get (λ w. w.active ≡ true → w.id ≤ q.tx_reservation_sequence) q.tx_reservations i
                  no_reservation lt v.known before,
            ));
  }

  added-Numbered :
      (i : ℕ) (r : Reservation)
      → i < length q.tx_reservations
      → r.id ≡ q.tx_reservation_sequence + 1
      → Numbered q.tx_reservations q.tx_reservation_sequence
      → Numbered (set q.tx_reservations i r) (q.tx_reservation_sequence + 1)
  unfolding has_id
  added-Numbered i r lt next v = record {
    single = λ id. elim (ℕ_discrete id r.id) [
      | yes new ↦ ground (
        arith,
        count-set (has_id id) q.tx_reservations i r no_reservation lt,
        count-zero id q.tx_reservations
            (All-mono q.tx_reservations (λ w h. ground (arith, h, next, new)) v.known),
      )
      | no other ↦
          ground (
            arith,
            count-set (has_id id) q.tx_reservations i r no_reservation lt,
            v.single id,
            other,
          )
    ];
    known =
        set-All (λ w. w.active ≡ true → w.id ≤ q.tx_reservation_sequence + 1) q.tx_reservations i r
          (All-mono q.tx_reservations (λ w h on. omega (arith, h on)) v.known)
          (λ on. omega (arith, next));
  }

Change-Numbered :
    (q q' : Queue)
    → Change q q'
    → Numbered q.tx_reservations q.tx_reservation_sequence
    → Numbered q'.tx_reservations q'.tx_reservation_sequence
Change-Numbered q q' (same h) v = subst (λ (w : List Reservation × ℕ). Numbered w.0 w.1) (sym h) v
Change-Numbered q q' (rewritten i r lt kept h) v =
    subst (λ (w : List Reservation × ℕ). Numbered w.0 w.1) (sym h)
      (rewritten-Numbered q i r lt kept v)
Change-Numbered q q' (added i r lt off next h) v =
    subst (λ (w : List Reservation × ℕ). Numbered w.0 w.1) (sym h) (added-Numbered q i r lt next v)

Change-Spent :
    (id : ℕ) (q q' : Queue)
    → Change q q'
    → Spent id q.tx_reservations q.tx_reservation_sequence
    → Spent id q'.tx_reservations q'.tx_reservation_sequence
unfolding has_id
Change-Spent id q q' (same h) v = subst (λ (w : List Reservation × ℕ). Spent id w.0 w.1) (sym h) v
Change-Spent id q q' (rewritten i r lt kept h) v =
    subst (λ (w : List Reservation × ℕ). Spent id w.0 w.1) (sym h)
      (record {
        given = v.given;
        claimed =
            set-All (λ w. has_id id w ≡ true → w.claimed ≡ true) q.tx_reservations i r v.claimed
              (λ yours.
                let (before, same_id, still) = kept (ground (arith, yours)) in
                still (
                  All_get (λ w. has_id id w ≡ true → w.claimed ≡ true) q.tx_reservations i
                    no_reservation lt v.claimed (ground (arith, before, same_id, yours))));
      })
Change-Spent id q q' (added i r lt off next h) v =
    subst (λ (w : List Reservation × ℕ). Spent id w.0 w.1) (sym h)
      (record {
        given = omega (arith, v.given);
        claimed =
            set-All (λ w. has_id id w ≡ true → w.claimed ≡ true) q.tx_reservations i r v.claimed
              (λ yours. absurd (ground (arith, yours, next, v.given)));
      })

-- Of at most one match, writing it leaves none that is not what was written.
alone :
    (id : ℕ) (es : List Reservation) (i : ℕ) (v : Reservation)
    → index (has_id id) es ≡ some i
    → count (has_id id) es ≤ 1
    → v.claimed ≡ true
    → All (λ w. has_id id w ≡ true → w.claimed ≡ true) (set es i v)
unfolding index count
alone id [] i v at few new = ground (arith, at)
alone id (e ∷ es) zero v at few new =
    let here = round_zero (has_id id e) (index (has_id id) es) at in
    ((λ yours. new), none_left es (ground (arith, here, few)))
  where
    none_left :
        (ws : List Reservation)
        → count (has_id id) ws ≡ 0
        → All (λ w. has_id id w ≡ true → w.claimed ≡ true) ws
    none_left [] h = tt
    none_left (w ∷ ws) h = ((λ yours. ground (arith, yours, h)), none_left ws (ground (arith, h)))
alone id (e ∷ es) (suc i) v at few new =
    let (not_here, later) = round_suc (has_id id e) (index (has_id id) es) i at in
    (
      (λ yours. ground (arith, yours, not_here)),
      alone id es i v later (ground (arith, few, not_here)) new,
    )

empty-Numbered :
    (rs : List Reservation) (sequence : ℕ) → All (λ r. r.active ≡ false) rs → Numbered rs sequence
unfolding has_id
empty-Numbered rs sequence off = record {
  single = λ id. omega (arith, count-zero id rs (All-mono rs (λ r h. ground (arith, h)) off));
  known = All-mono rs (λ r h on. absurd (ground (arith, h, on))) off;
}

module _ (siphash : List ℕ → ℕ) where
  operate_all-Numbered :
      (q : Queue) (ops : List Operation)
      → Numbered q.tx_reservations q.tx_reservation_sequence
      → Numbered
          (operate_all siphash q ops).tx_reservations
          (operate_all siphash q ops).tx_reservation_sequence
  unfolding operate_all
  operate_all-Numbered q [] v = v
  operate_all-Numbered q (op ∷ ops) v =
      let next = operate siphash q op in
      operate_all-Numbered next ops (Change-Numbered q next (operate-Change siphash q op) v)

  operate_all-Spent :
      (id : ℕ) (q : Queue) (ops : List Operation)
      → Spent id q.tx_reservations q.tx_reservation_sequence
      → Spent id
          (operate_all siphash q ops).tx_reservations
          (operate_all siphash q ops).tx_reservation_sequence
  unfolding operate_all
  operate_all-Spent id q [] v = v
  operate_all-Spent id q (op ∷ ops) v =
      let next = operate siphash q op in
      operate_all-Spent id next ops (Change-Spent id q next (operate-Change siphash q op) v)

  claim_gone :
      (q : Queue) (id : ℕ) (octets : List ℕ)
      → reservation_find q id ≡ none
      → (length octets == 0) ≡ false
      → (reservation_claim siphash q id octets).1 ≡ err enoent
  unfolding reservation_claim
  claim_gone q id octets gone some_octets = rw (some_octets, gone, reservation_claim) refl

  claim-Spent :
      (q : Queue) (id : ℕ) (octets : List ℕ)
      → Numbered q.tx_reservations q.tx_reservation_sequence
      → (reservation_claim siphash q id octets).1 ≡ ok tt
      → Spent id
          (reservation_claim siphash q id octets).0.tx_reservations
          (reservation_claim siphash q id octets).0.tx_reservation_sequence
  unfolding reservation_find has_id
  claim-Spent q id octets v done = elim (Bool-cases (length octets == 0)) [
    | inl empty ↦ ground (arith, done, claim_empty siphash q id octets empty)
    | inr some_octets ↦ elim (Option-cases (reservation_find q id)) [
      | inl gone ↦ ground (arith, done, claim_gone q id octets gone some_octets)
      | inr (i, at) ↦
          let r = reservation_at q i in
          elim (Bool-cases (not r.sealed || r.claimed || r.tag != siphash octets)) [
            | inl refused ↦
                ground (arith, done, refused, claim_lem siphash q id i at octets some_octets)
            | inr fresh ↦
                let hit = hit-index (has_id id) q.tx_reservations i no_reservation at in
                subst (λ (w : Queue). Spent id w.tx_reservations w.tx_reservation_sequence)
                  (sym (claimed_lem siphash q id i at octets some_octets fresh))
                  (record {
                    given = ground (
                      arith,
                      hit,
                      All_get (λ w. w.active ≡ true → w.id ≤ q.tx_reservation_sequence)
                          q.tx_reservations i no_reservation
                          (index-lt (has_id id) q.tx_reservations i at) v.known,
                    );
                    claimed =
                        alone id q.tx_reservations i (record r { claimed = true }) at (v.single id)
                          refl;
                  })
          ]
    ]
  ]

  Spent-refused :
      (q : Queue) (id : ℕ) (octets : List ℕ)
      → Spent id q.tx_reservations q.tx_reservation_sequence
      → (reservation_claim siphash q id octets).1
        ≡ (if length octets == 0 then err einval else err enoent)
  unfolding reservation_find
  Spent-refused q id octets v = elim (Bool-cases (length octets == 0)) [
    | inl empty ↦ claim_empty siphash q id octets empty ∙ rw (empty) refl
    | inr some_octets ↦ elim (Option-cases (reservation_find q id)) [
      | inl gone ↦ claim_gone q id octets gone some_octets ∙ rw (some_octets) refl
      | inr (i, at) ↦
          let before : (reservation_at q i).claimed ≡ true =
            All_get (λ w. has_id id w ≡ true → w.claimed ≡ true) q.tx_reservations i no_reservation
              (index-lt (has_id id) q.tx_reservations i at) v.claimed
              (hit-index (has_id id) q.tx_reservations i no_reservation at) in
          claim_lem siphash q id i at octets some_octets ∙ rw (some_octets) (ground (arith, before))
    ]
  ]

  -- From a device without reservations, whatever operations on the reservations come first and in
  -- between: once an id has been claimed, no data can claim it again. The refusal is ENOENT, or EINVAL
  -- for empty data.
  pub claim_once :
      (q : Queue) (first between : List Operation) (id : ℕ) (octets other : List ℕ)
      → All (λ r. r.active ≡ false) q.tx_reservations
      → (reservation_claim siphash (operate_all siphash q first) id octets).1 ≡ ok tt
      → (reservation_claim siphash
          (operate_all siphash
            (reservation_claim siphash (operate_all siphash q first) id octets).0
            between)
          id
          other).1
        ≡ (if length other == 0 then err einval else err enoent)
  claim_once q first between id octets other off done =
      let before = operate_all siphash q first in
      let after_claim = (reservation_claim siphash before id octets).0 in
      Spent-refused (operate_all siphash after_claim between) id other (
        operate_all-Spent id after_claim between (
          claim-Spent before id octets
            (operate_all-Numbered q first
              (empty-Numbered q.tx_reservations q.tx_reservation_sequence off))
            done))
