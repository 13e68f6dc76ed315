-- ===== src/Reliability/Bounds.antt =====
-- The invariant of an exchange in src/proto/reliability.c, and the bounds of a scaled delay.
use melodi.Base.{
  List, [], ◌∷◌, All, Result, u8, inv64, bit_or-lt, mask-lt, ok, err, ℕ, ◌+◌, ◌-◌, ◌*◌, ◌^◌, ◌≤◌,
  ◌<◌, bit_and, ◌≡◌, ap, ◌≢◌, Bool, true, arith,
}
use native.Mathlib.Nat.{one-le-pow, pow-le-pow_right}
use melodi.Reliability.State.{
  State, mask, add, scale, delay, deadlines, started, start, ack, poll, retry, postponed, retried,
  retry_limit, fragment_limit, clamp_pace,
}

-- The mask has the lowest `fragment_count` digits.
pub mask-eq : (n : ℕ) → n ≤ fragment_limit → mask n ≡ 2 ^ n - 1
unfolding mask
mask-eq n le = ground (arith, ap (λ (k : ℕ). 2 ^ k) {x = n} {y = 64}, one-le-pow n 2 (omega arith))

-- What an exchange in progress knows of itself.
pub record IsState (s : State) : Type 0 where
  pub retries : s.retries ≤ retry_limit
  pub count : s.fragment_count ≤ fragment_limit
  pub acknowledged : s.acknowledged < 2 ^ s.fragment_count
  pub unfinished : s.active ≡ true → s.acknowledged ≢ mask s.fragment_count

products : (n c : ℕ) → 100 ≤ c → c ≤ 30000 → (n * 100 ≤ n * c) × (n * c ≤ n * 30000)
products n c low high = (grind arith, grind arith)

-- A scaled delay is at least the nominal one, and at most 300 times as long.
pub scale_bounds :
    (pace nominal : ℕ)
    → nominal ≤ 5000
    → (nominal ≤ scale pace nominal) × (scale pace nominal ≤ 300 * nominal)
unfolding scale
scale_bounds pace nominal le = ground (arith, products nominal (clamp_pace pace))

mask-pos : (n : ℕ) → 0 < n → n ≤ fragment_limit → 0 < mask n
mask-pos n pos le =
    omega (arith, mask-eq n le, pow-le-pow_right {n = 2} (omega arith) {i = 1} {j = n} pos)

started-IsState :
    (message_id generation fragment_count pace : ℕ) (d : Result (ℕ × ℕ))
    → 0 < fragment_count
    → fragment_count ≤ fragment_limit
    → IsState (started message_id generation fragment_count pace d).0
started-IsState message_id generation fragment_count pace (err e) pos le = record {
  retries = omega arith;
  count = omega arith;
  acknowledged = omega arith;
  unfinished = λ p. absurd (ground arith);
}
started-IsState message_id generation fragment_count pace (ok (a, b)) pos le = record {
  retries = omega arith;
  count = le;
  acknowledged = one-le-pow fragment_count 2 (omega arith);
  unfinished = λ p q. omega (arith, mask-pos fragment_count pos le);
}

-- Starting an exchange, or being refused, leaves a sound state: at most four retries, at most 64
-- fragments, only fragments of the message acknowledged, and an active exchange lacks one.
pub start-IsState :
    (s : State) (message_id generation fragment_count now pace ttl : ℕ)
    → IsState s
    → IsState (start s message_id generation fragment_count now pace ttl).0
unfolding start
start-IsState s message_id generation fragment_count now pace ttl v =
    ground
      (arith, started-IsState message_id generation fragment_count pace (deadlines now pace ttl))

-- An acknowledgement of any kind leaves a sound state.
pub ack-IsState :
    (s : State) (message_id generation fragment_count bitmap : ℕ) (rejected : Bool)
    → IsState s
    → bitmap < 2 ^ 64
    → IsState (ack s message_id generation fragment_count bitmap rejected).0
unfolding ack
ack-IsState s message_id generation fragment_count bitmap rejected v fits = ground (
  arith,
  mask-eq fragment_count,
  mask-lt fragment_count bitmap,
  bit_or-lt s.fragment_count s.acknowledged bitmap v.acknowledged,
)

postponed-IsState : (s : State) (d : Result ℕ) → IsState s → IsState (postponed s d).0
postponed-IsState s (ok next) v = ground arith
postponed-IsState s (err e) v = v

retried-IsState :
    (s : State) (missing : ℕ) (d : Result ℕ) → IsState s → IsState (retried s missing d).0
retried-IsState s missing (ok next) v = ground arith
retried-IsState s missing (err e) v = ground arith

counted-IsState :
    (s : State)
    → IsState s
    → s.retries < retry_limit
    → IsState (record s { retries = u8 (s.retries + 1) })
counted-IsState s v lt = ground arith

retry-IsState :
    (s : State) (now : ℕ) → IsState s → s.retries < retry_limit → IsState (retry s now).0
unfolding retry
retry-IsState s now v lt =
    let s' = record s { retries = u8 (s.retries + 1) } in
    let missing = bit_and (mask s.fragment_count) (inv64 s.acknowledged) in
    ground (
      arith,
      counted-IsState s v lt,
      retried-IsState s' missing (add now (delay s')) (counted-IsState s v lt),
    )

-- Polling at any time leaves a sound state.
pub poll-IsState : (s : State) (now : ℕ) (queued : Bool) → IsState s → IsState (poll s now queued).0
unfolding poll
poll-IsState s now queued v =
    ground (arith, postponed-IsState s (add now (delay s)) v, retry-IsState s now v)

-- What happens to an exchange.
pub data Event : Type 0 where
  begun : (message_id generation fragment_count now pace ttl : ℕ) → Event
  acknowledged_by : (message_id generation fragment_count bitmap : ℕ) (rejected : Bool) → Event
  polled_at : (now : ℕ) (queued : Bool) → Event

-- A bitmap is a `uint64_t`.
abbrev pub Fits : Event → Type 0
Fits (acknowledged_by message_id generation fragment_count bitmap rejected) = bitmap < 2 ^ 64
Fits _ = Unit

unfoldable pub happen : State → Event → State
happen s (begun message_id generation fragment_count now pace ttl) =
    (start s message_id generation fragment_count now pace ttl).0
happen s (acknowledged_by message_id generation fragment_count bitmap rejected) =
    (ack s message_id generation fragment_count bitmap rejected).0
happen s (polled_at now queued) = (poll s now queued).0

unfoldable pub happen_all : State → List Event → State
happen_all s [] = s
happen_all s (e ∷ es) = happen_all (happen s e) es

happen-IsState : (s : State) (e : Event) → IsState s → Fits e → IsState (happen s e)
unfolding happen
happen-IsState s (begun message_id generation fragment_count now pace ttl) v fits =
    start-IsState s message_id generation fragment_count now pace ttl v
happen-IsState s (acknowledged_by message_id generation fragment_count bitmap rejected) v fits =
    ack-IsState s message_id generation fragment_count bitmap rejected v fits
happen-IsState s (polled_at now queued) v fits = poll-IsState s now queued v

-- Any sequence of starts, acknowledgements and polls leaves a sound exchange: at most four retries, at
-- most 64 fragments, only fragments of the message acknowledged, and an active exchange lacks one.
pub happen_all-IsState :
    (s : State) (es : List Event) → IsState s → All Fits es → IsState (happen_all s es)
unfolding happen_all
happen_all-IsState s [] v fits = v
happen_all-IsState s (e ∷ es) v fits =
    happen_all-IsState (happen s e) es (happen-IsState s e v fits.0) fits.1
