-- ===== src/Reliability/Retries.antt =====
-- The retransmissions over sequences of acknowledgements and polls.
use melodi.Base.{
  Result, u8, inv64, ok, err, ℕ, ◌+◌, ◌≤◌, ◌<◌, bit_and, ◌≡◌, refl, Bool, Option, none, some, List,
  ◌∷◌, arith, [],
}
use melodi.Reliability.State.{
  State, ack, poll, retry, postponed, retried, add, delay, retry_limit, mask,
}

-- What can happen to an exchange, with the clock that a poll reads.
pub data Event : Type 0 where
  acked : (message_id generation fragment_count bitmap : ℕ) → Bool → Event
  polled : (now : ℕ) → Bool → Event

abbrev pub retransmitted : Result (Option ℕ) → ℕ
retransmitted (ok (some _)) = 1
retransmitted (ok none) = 0
retransmitted (err _) = 0

unfoldable pub step : State → Event → State × ℕ
step s (acked message_id generation fragment_count bitmap refusal) =
    ((ack s message_id generation fragment_count bitmap refusal).0, 0)
step s (polled now queued) = ((poll s now queued).0, retransmitted (poll s now queued).1)

-- The number of retransmissions over a sequence of events.
unfoldable pub retransmissions : State → List Event → ℕ
retransmissions s [] = 0
retransmissions s (e ∷ es) = let (s', sent) = step s e in sent + retransmissions s' es

ack-retries :
    (s : State) (message_id generation fragment_count bitmap : ℕ) (refusal : Bool)
    → (ack s message_id generation fragment_count bitmap refusal).0.retries ≡ s.retries
unfolding ack
ack-retries s message_id generation fragment_count bitmap refusal = ground arith

postponed-retries :
    (s : State) (d : Result ℕ)
    → ((postponed s d).0.retries ≡ s.retries) × (retransmitted (postponed s d).1 ≡ 0)
postponed-retries s (ok next) = (refl, refl)
postponed-retries s (err e) = (refl, refl)

retried-retries :
    (s : State) (missing : ℕ) (d : Result ℕ)
    → ((retried s missing d).0.retries ≡ s.retries) × (retransmitted (retried s missing d).1 ≤ 1)
retried-retries s missing (ok next) = (refl, omega arith)
retried-retries s missing (err e) = (refl, omega arith)

retry-retries :
    (s : State) (now : ℕ)
    → s.retries < retry_limit
    → (s.retries + retransmitted (retry s now).1 ≤ (retry s now).0.retries)
      × ((retry s now).0.retries ≤ retry_limit)
unfolding retry
retry-retries s now lt =
    let s' = record s { retries = u8 (s.retries + 1) } in
    let missing = bit_and (mask s.fragment_count) (inv64 s.acknowledged) in
    ground (arith, retried-retries s' missing (add now (delay s')))

step-retries :
    (s : State) (e : Event)
    → s.retries ≤ retry_limit
    → (s.retries + (step s e).1 ≤ (step s e).0.retries) × ((step s e).0.retries ≤ retry_limit)
unfolding step
step-retries s (acked message_id generation fragment_count bitmap refusal) le =
    omega (arith, ack-retries s message_id generation fragment_count bitmap refusal)
step-retries s (polled now queued) le =
    unfold poll in ground (arith, postponed-retries s (add now (delay s)), retry-retries s now)

-- Over any sequence of acknowledgements and polls, the retransmissions so far and those to come are
-- at most four.
pub retransmissions-le :
    (s : State) (es : List Event)
    → s.retries ≤ retry_limit
    → s.retries + retransmissions s es ≤ retry_limit
unfolding retransmissions
retransmissions-le s [] le = omega arith
retransmissions-le s (e ∷ es) le =
    let (more, next) = step-retries s e le in
    omega (arith, more, retransmissions-le (step s e).0 es next)
