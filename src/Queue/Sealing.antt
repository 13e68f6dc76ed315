-- ===== src/Queue/Sealing.antt =====
-- melodi_queue_reservation_seal and melodi_queue_reservation_claim on one reservation.
use melodi.Slots.Index.{index-lt, hit-index}
use melodi.Slots.Update.{index-set_index}
use melodi.Queue.{Reservation, Queue, no_reservation}
use melodi.Queue.Reservations.{has_id, reservation_find, reservation_seal, reservation_claim}
use melodi.Base.{
  ◌==◌, ◌!=◌, if◌then◌else◌, Bool-cases, Result, length, get_or, set, get_or-set_self, ok, err,
  einval, enoent, ℕ, ◌≡◌, refl, ap, ◌∙◌, inl, inr, Bool, true, false, not, ◌||◌, some, List, arith,
}

-- The reservation under an id.
abbrev pub reservation_at : Queue → ℕ → Reservation
reservation_at q i = get_or q.tx_reservations i no_reservation

-- The reservation found is active.
find-active :
    (q : Queue) (id i : ℕ) → reservation_find q id ≡ some i → (reservation_at q i).active ≡ true
unfolding reservation_find has_id
find-active q id i at = ground (arith, hit-index (has_id id) q.tx_reservations i no_reservation at)

-- Writing the reservation of an id, under the same id.
module _ (q : Queue) (id i : ℕ) (at : reservation_find q id ≡ some i) (r : Reservation) where
  find-rewritten :
      r.active ≡ true
      → r.id ≡ (reservation_at q i).id
      → reservation_find (record q { tx_reservations = set q.tx_reservations i r }) id ≡ some i
  unfolding reservation_find has_id
  find-rewritten on same =
      index-set_index (has_id id) q.tx_reservations i r at
        (ground (arith, on, same, hit-index (has_id id) q.tx_reservations i no_reservation at))

  at-rewritten : reservation_at (record q { tx_reservations = set q.tx_reservations i r }) i ≡ r
  unfolding reservation_find
  at-rewritten =
      get_or-set_self q.tx_reservations i r no_reservation
        (index-lt (has_id id) q.tx_reservations i at)

module _ (siphash : List ℕ → ℕ) (q : Queue) (id i : ℕ) (at : reservation_find q id ≡ some i) where
  -- The answers, by the reservation that is found.
  seal_lem :
      (octets : List ℕ)
      → (length octets == 0) ≡ false
      → (reservation_at q i).sealed ≡ false
      → reservation_seal siphash q id octets ≡ (
        record q {
          tx_reservations =
              set q.tx_reservations i
                (record (reservation_at q i) { tag = siphash octets; sealed = true });
        },
        ok tt,
      )
  unfolding reservation_seal
  seal_lem octets some_octets fresh = rw (some_octets, at, reservation_seal, fresh) refl

  pub claim_lem :
      (octets : List ℕ)
      → (length octets == 0) ≡ false
      → (reservation_claim siphash q id octets).1 ≡ (
          if not (reservation_at q i).sealed
            || (reservation_at q i).claimed
            || (reservation_at q i).tag != siphash octets
          then err enoent
          else ok tt)
  unfolding reservation_claim
  claim_lem octets some_octets =
      let r = reservation_at q i in
      elim (Bool-cases (not r.sealed || r.claimed || r.tag != siphash octets)) [
        | inl refused ↦ rw (some_octets, at, reservation_claim, refused) refl
        | inr fresh ↦ rw (some_octets, at, reservation_claim, fresh) refl
      ]

  pub claimed_lem :
      (octets : List ℕ)
      → (length octets == 0) ≡ false
      → (not (reservation_at q i).sealed
          || (reservation_at q i).claimed
          || (reservation_at q i).tag != siphash octets)
        ≡ false
      → (reservation_claim siphash q id octets).0 ≡ record q {
        tx_reservations = set q.tx_reservations i (record (reservation_at q i) { claimed = true });
      }
  unfolding reservation_claim
  claimed_lem octets some_octets fresh = rw (some_octets, at, reservation_claim, fresh) refl

-- The answer of a claim by its test.
abbrev answer : Bool → Result (Unit {0})
answer refused = if refused then err enoent else ok tt

claim_test : (tag other : ℕ) → answer (tag != other) ≡ (if tag == other then ok tt else err enoent)
claim_test tag other = ground arith

pub claim_empty :
    (siphash : List ℕ → ℕ) (q : Queue) (id : ℕ) (octets : List ℕ)
    → (length octets == 0) ≡ true
    → (reservation_claim siphash q id octets).1 ≡ err einval
unfolding reservation_claim
claim_empty siphash q id octets empty = rw (empty, reservation_claim) refl

module _ (siphash : List ℕ → ℕ) (q : Queue) (id i : ℕ) (at : reservation_find q id ≡ some i) where
  -- A reservation that is neither sealed nor claimed and is sealed with some data can be claimed by
  -- data with the same hash, and by no other data.
  pub claim-seal :
      (octets other : List ℕ)
      → (length octets == 0) ≡ false
      → (length other == 0) ≡ false
      → (reservation_at q i).sealed ≡ false
      → (reservation_at q i).claimed ≡ false
      → (reservation_claim siphash (reservation_seal siphash q id octets).0 id other).1
        ≡ (if siphash octets == siphash other then ok tt else err enoent)
  claim-seal octets other some_octets some_other fresh unclaimed =
      let r : Reservation = record (reservation_at q i) { tag = siphash octets; sealed = true } in
      let q' : Queue = record q { tx_reservations = set q.tx_reservations i r } in
      let on : r.active ≡ true = find-active q id i at in
      ap (λ (q1 : Queue). (reservation_claim siphash q1 id other).1)
        (ap (λ r. r.0) (seal_lem siphash q id i at octets some_octets fresh))
      ∙ claim_lem siphash q' id i (find-rewritten q id i at r on refl) other some_other
      ∙ ap
          (λ (w : Reservation).
            if not w.sealed || w.claimed || w.tag != siphash other then err enoent else ok tt)
          (at-rewritten q id i at r)
      ∙ ap (λ c. answer (not true || c || siphash octets != siphash other)) unclaimed
      ∙ claim_test (siphash octets) (siphash other)
