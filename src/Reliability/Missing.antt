-- ===== src/Reliability/Missing.antt =====
-- melodi_reliability_poll and melodi_reliability_ack by the fragments of the message.
use melodi.Base.{
  ltb, ◌==◌, ◌!=◌, not, ◌||◌, inl, inr, if◌then◌else◌, Result, u8, inv64, has, bit, bit-le_one,
  bit-zero, bit-bit_and, bit-mod, bit_ext, bit-bit_or, bit_or-lt, bit_and-lt, mask-lt,
  bit-complement, bit-mask, ok, err, ℕ, ◌+◌, ◌-◌, ◌^◌, ◌≤◌, ◌<◌, bit_and, bit_or, ◌≡◌, sym, ap, ◌∙◌,
  ◌≢◌, ◌↔◌, ◌⊎◌, Bool, true, false, some, arith,
}
use native.Mathlib.Decide.{ℕ_discrete}
use native.Mathlib.Nat.{pow-le-pow_right, one-le-pow, mod-eq_of_lt}
use melodi.Reliability.State.{
  State, mask, ack, poll, retry, postponed, retried, add, delay, retry_limit,
}
use melodi.Reliability.Bounds.{IsState, mask-eq}

abbrev missing_of : State → ℕ
missing_of s = bit_and (mask s.fragment_count) (inv64 s.acknowledged)

acknowledged-lt : (s : State) → IsState s → s.acknowledged < 2 ^ 64
acknowledged-lt s v = omega (
  arith,
  v.acknowledged,
  pow-le-pow_right {n = 2} (omega arith) {i = s.fragment_count} {j = 64} v.count,
)

bit-missing :
    (s : State) (i : ℕ)
    → IsState s
    → bit i (missing_of s) ≡ (if ltb i s.fragment_count then 1 - bit i s.acknowledged else 0)
bit-missing s i v = ground (
  arith,
  bit-bit_and i (mask s.fragment_count) (inv64 s.acknowledged),
  ap (bit i) (mask-eq s.fragment_count v.count),
  bit-mask s.fragment_count i,
  bit-complement 64 i s.acknowledged (acknowledged-lt s v),
  bit-le_one i s.acknowledged,
  v.count,
)

retried-missing :
    (s : State) (m : ℕ) (d : Result ℕ) {o : ℕ} → (retried s m d).1 ≡ ok (some o) → o ≡ m
retried-missing s m (ok next) e = ground arith
retried-missing s m (err x) e = ground arith

postponed-none : (s : State) (d : Result ℕ) {o : ℕ} → (postponed s d).1 ≢ ok (some o)
postponed-none s (ok next) e = ground arith
postponed-none s (err x) e = ground arith

poll-missing :
    (s : State) (now : ℕ) (queued : Bool) {o : ℕ}
    → (poll s now queued).1 ≡ ok (some o)
    → (s.active ≡ true)
      × (queued ≡ false)
      × (now < s.deadline_ms)
      × (s.next_retry_ms ≤ now)
      × (s.retries < retry_limit)
      × (o ≡ missing_of s)
unfolding poll retry
poll-missing s now queued {o} e =
    let s' = record s { retries = u8 (s.retries + 1) } in
    ground (
      arith,
      postponed-none s (add now (delay s)) {o = o},
      retried-missing s' (missing_of s) (add now (delay s')) {o = o},
    )

-- With nothing missing, everything is acknowledged.
missing-zero : (s : State) → IsState s → missing_of s ≡ 0 → s.acknowledged ≡ mask s.fragment_count
missing-zero s v e =
    let n = s.fragment_count in
    bit_ext n s.acknowledged (2 ^ n - 1) v.acknowledged
      (omega (arith, one-le-pow n 2 (omega arith)))
      (λ i. ground (
        arith,
        bit-mask n i,
        bit-missing s i v,
        ap (bit i) e,
        bit-zero i,
        bit-le_one i s.acknowledged,
        ap (bit i) (mod-eq_of_lt v.acknowledged),
        bit-mod n i s.acknowledged,
      ))
    ∙ sym (mask-eq n v.count)

-- A retransmission happens only in an active exchange, with nothing queued, at the retry time, before
-- the deadline and within the limit, and asks for exactly the fragments that no acknowledgement has
-- covered, of which there is at least one.
pub poll-exact :
    (s : State) (now : ℕ) (queued : Bool) {missing : ℕ}
    → IsState s
    → (poll s now queued).1 ≡ ok (some missing)
    → (s.active ≡ true)
      × (queued ≡ false)
      × (now < s.deadline_ms)
      × (s.next_retry_ms ≤ now)
      × (s.retries < retry_limit)
      × ((i : ℕ) → bit i missing ≡ (if ltb i s.fragment_count then 1 - bit i s.acknowledged else 0))
      × (missing ≢ 0)
poll-exact s now queued {missing} v e =
    let (on, idle, early, due, within, same) = poll-missing s now queued e in
    (
      on,
      idle,
      early,
      due,
      within,
      λ i. ap (bit i) same ∙ bit-missing s i v,
      λ z. v.unfinished on (missing-zero s v (sym same ∙ z)),
    )

-- A set of fragments within the mask that covers every fragment is the mask.
covered :
    (n union : ℕ) → n ≤ 64 → union < 2 ^ n → (union ≡ mask n) ↔ ((i : ℕ) → i < n → bit i union ≡ 1)
covered n union few lt = (
  λ e i h. ap (bit i) (e ∙ mask-eq n few) ∙ ground (arith, bit-mask n i, h),
  λ all.
      bit_ext n union (2 ^ n - 1) lt (omega (arith, one-le-pow n 2 (omega arith)))
        (λ i. ground (arith, all i, bit-mask n i, ap (bit i) (mod-eq_of_lt lt), bit-mod n i union))
      ∙ sym (mask-eq n few),
)

-- The branch of `ack` that returns 1, by its own tests.
ack-ok :
    (s : State) (message_id generation fragment_count bitmap : ℕ) (rejected : Bool)
    → ((ack s message_id generation fragment_count bitmap rejected).1 ≡ ok true) ↔ (
        (s.active ≡ true)
        × (s.message_id ≡ message_id)
        × (s.generation ≡ generation)
        × (s.fragment_count ≡ fragment_count)
        × (bitmap ≢ 0)
        × (has bitmap (inv64 (mask fragment_count)) ≡ false)
        × (rejected ≡ false)
        × (bit_or s.acknowledged bitmap ≡ mask fragment_count))
unfolding ack
ack-ok s message_id generation fragment_count bitmap rejected = ground arith

ack-ended :
    (s : State) (message_id generation fragment_count bitmap : ℕ) (rejected : Bool)
    → (ack s message_id generation fragment_count bitmap rejected).1 ≡ ok true
    → ack s message_id generation fragment_count bitmap rejected
      ≡ (record s { acknowledged = mask fragment_count; active = false }, ok true)
unfolding ack
ack-ended s message_id generation fragment_count bitmap rejected e =
    let (on, message, same, count, some_bits, inside, accepted, all) =
      (ack-ok s message_id generation fragment_count bitmap rejected).0 e in
    let belongs : (not s.active
          || s.message_id != message_id
          || s.generation != generation
          || s.fragment_count != fragment_count)
        ≡ false =
      ground (arith, on, message, same, count) in
    let formed : (bitmap == 0 || has bitmap (inv64 (mask fragment_count))) ≡ false =
      ground (arith, some_bits, inside) in
    let whole : (bit_or s.acknowledged bitmap == mask fragment_count) ≡ true =
      ground (arith, all) in
    rw (belongs, formed, accepted, whole)
      (ap (λ u. (record s { acknowledged = u; active = false }, ok true)) all)

-- An acknowledgement of all that was missing in the exchange: it belongs to the exchange and is
-- well-formed, does not reject the message, and covers each fragment not acknowledged before.
pub record Completes (s : State) (message_id generation fragment_count bitmap : ℕ) (rejected : Bool)
    : Type 0 where
  pub on : s.active ≡ true
  pub same_message : s.message_id ≡ message_id
  pub same_generation : s.generation ≡ generation
  pub same_count : s.fragment_count ≡ fragment_count
  pub some_bits : bitmap ≢ 0
  pub inside : bitmap < 2 ^ fragment_count
  pub accepted : rejected ≡ false
  pub covers : (i : ℕ) → i < fragment_count → (bit i s.acknowledged ≡ 1) ⊎ (bit i bitmap ≡ 1)

-- A set below the mask has no bit beyond it.
has-inside : (n x : ℕ) → n ≤ 64 → x < 2 ^ n → has x (inv64 (mask n)) ≡ false
has-inside n x few lt =
    let wide : 2 ^ n ≤ 2 ^ 64 = pow-le-pow_right {n = 2} (omega arith) {i = n} {j = 64} few in
    let empty : bit_and x (inv64 (mask n)) ≡ 0 =
      bit_ext 64 (bit_and x (inv64 (mask n))) 0
        (bit_and-lt 64 x (inv64 (mask n)) (omega (arith, lt, wide)) (omega arith)) (omega arith)
        (λ i. ground (
          arith,
          bit-bit_and i x (inv64 (mask n)),
          ap (λ m. bit i (inv64 m)) (mask-eq n few),
          bit-complement 64 i (2 ^ n - 1) (omega (arith, wide)),
          bit-mask n i,
          bit-zero i,
          bit-le_one i x,
          ap (bit i) (mod-eq_of_lt lt),
          bit-mod n i x,
        )) in
    none_left empty
  where
    none_left : {y : ℕ} → y ≡ 0 → (y != 0) ≡ false
    none_left e = ground arith

ack-Completes :
    (s : State) (message_id generation fragment_count bitmap : ℕ) (rejected : Bool)
    → IsState s
    → bitmap < 2 ^ 64
    → ((ack s message_id generation fragment_count bitmap rejected).1 ≡ ok true)
      ↔ Completes s message_id generation fragment_count bitmap rejected
ack-Completes s message_id generation fragment_count bitmap rejected v fits = (
  λ e.
      let (on, message, same, count, some_bits, inside, accepted, all) =
        (ack-ok s message_id generation fragment_count bitmap rejected).0 e in
      let few : fragment_count ≤ 64 = omega (arith, v.count, count) in
      let below : bitmap < 2 ^ fragment_count =
        mask-lt fragment_count bitmap few fits
          (ap (λ m. has bitmap (inv64 m)) (sym (mask-eq fragment_count few)) ∙ inside) in
      let known : s.acknowledged < 2 ^ fragment_count =
        omega (arith, v.acknowledged, ap (λ n. 2 ^ n) count) in
      record {
        on = on;
        same_message = message;
        same_generation = same;
        same_count = count;
        some_bits = some_bits;
        inside = below;
        accepted = accepted;
        covers = λ i lt. either_bit i s.acknowledged bitmap (
            (covered fragment_count (bit_or s.acknowledged bitmap) few
                (bit_or-lt fragment_count s.acknowledged bitmap known below)).0
              all i lt);
      },
  λ c.
      let few : fragment_count ≤ 64 = omega (arith, v.count, c.same_count) in
      let known : s.acknowledged < 2 ^ fragment_count =
        omega (arith, v.acknowledged, ap (λ n. 2 ^ n) c.same_count) in
      (ack-ok s message_id generation fragment_count bitmap rejected).1 (
        c.on,
        c.same_message,
        c.same_generation,
        c.same_count,
        c.some_bits,
        has-inside fragment_count bitmap few c.inside,
        c.accepted,
        (covered fragment_count (bit_or s.acknowledged bitmap) few
              (bit_or-lt fragment_count s.acknowledged bitmap known c.inside)).1
            (λ i lt. ground (
              arith,
              c.covers i lt,
              bit-bit_or i s.acknowledged bitmap,
              bit-le_one i bitmap,
              bit-le_one i s.acknowledged,
            )),
      ),
)
  where
    either_bit : (i a b : ℕ) → bit i (bit_or a b) ≡ 1 → (bit i a ≡ 1) ⊎ (bit i b ≡ 1)
    either_bit i a b e = elim (ℕ_discrete (bit i a) 1) [
      | yes one ↦ inl one
      | no other ↦ inr (omega (arith, bit-bit_or i a b, bit-le_one i a, bit-le_one i b, e, other))
    ]

-- An acknowledgement returns 1 exactly when it belongs to the active exchange, is well-formed, does not
-- reject the message and covers every fragment that was not acknowledged before. The state after is
-- then that of an exchange that is over, with every fragment acknowledged.
pub ack_complete :
    (s : State) (message_id generation fragment_count bitmap : ℕ) (rejected : Bool)
    → IsState s
    → bitmap < 2 ^ 64
    → (((ack s message_id generation fragment_count bitmap rejected).1 ≡ ok true)
        ↔ Completes s message_id generation fragment_count bitmap rejected)
      × ((ack s message_id generation fragment_count bitmap rejected
            ≡ (record s { acknowledged = mask fragment_count; active = false }, ok true))
          ↔ Completes s message_id generation fragment_count bitmap rejected)
ack_complete s message_id generation fragment_count bitmap rejected v fits =
    let (sound, enough) =
      ack-Completes s message_id generation fragment_count bitmap rejected v fits in
    (
      (sound, enough),
      (
        λ e. sound (ap (λ r. r.1) e),
        λ c. ack-ended s message_id generation fragment_count bitmap rejected (enough c),
      ),
    )
