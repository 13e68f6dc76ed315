-- ===== src/Reliability/State.antt =====
-- struct melodi_reliability_state and its operations. An operation returns the state beside what it
-- returns; NULL pointers have no counterpart.
use melodi.Base.{
  ltb, leb, ◌==◌, ◌!=◌, if◌then◌else◌, ◌>>=◌, Result, get_or, u8, u64, u64_max, ◌<<<◌, inv64, has,
  ok, err, einval, enoent, eproto, eoverflow, etimedout, econnrefused, ℕ, ◌+◌, ◌-◌, ◌*◌, ◌/◌,
  bit_and, bit_or, Bool, true, false, not, ◌&&◌, ◌||◌, Option, none, some, List, ◌∷◌, [],
}

abbrev pub retry_limit : ℕ
retry_limit = 4

abbrev pub deadline_after_ms : ℕ
deadline_after_ms = 5000

abbrev pub pace_base_ms : ℕ
pace_base_ms = 100

abbrev pub pace_limit_ms : ℕ
pace_limit_ms = 30000

abbrev pub fragment_limit : ℕ
fragment_limit = 64

pub record State : Type 0 where
  pub message_id : ℕ
  pub acknowledged : ℕ
  pub deadline_ms : ℕ
  pub next_retry_ms : ℕ
  pub generation : ℕ
  pub pace_ms : ℕ
  pub fragment_count : ℕ
  pub retries : ℕ
  pub active : Bool

-- What `memset` leaves.
abbrev pub cleared : State
cleared = record {
  message_id = 0;
  acknowledged = 0;
  deadline_ms = 0;
  next_retry_ms = 0;
  generation = 0;
  pace_ms = 0;
  fragment_count = 0;
  retries = 0;
  active = false;
}

abbrev pub retry_delays : List ℕ
retry_delays = 200 ∷ 500 ∷ 1000 ∷ 2000 ∷ []

unfoldable pub mask : ℕ → ℕ
mask fragment_count =
    if fragment_count == fragment_limit then u64_max else (1 <<< fragment_count) - 1

unfoldable pub add : ℕ → ℕ → Result ℕ
add value amount = if ltb (u64_max - amount) value then err eoverflow else ok (value + amount)

abbrev pub clamp_pace : ℕ → ℕ
clamp_pace pace =
    let raised = if ltb pace pace_base_ms then pace_base_ms else pace in
    if ltb pace_limit_ms raised then pace_limit_ms else raised

unfoldable pub scale : ℕ → ℕ → ℕ
scale pace nominal = u64 (nominal * clamp_pace pace) / pace_base_ms

unfoldable pub delay : State → ℕ
delay s =
    scale s.pace_ms
      (get_or retry_delays (if leb retry_limit s.retries then retry_limit - 1 else s.retries) 0)

abbrev pub deadline_for : ℕ → ℕ → ℕ
deadline_for pace ttl =
    let deadline = scale pace deadline_after_ms in
    if ttl != 0 && ltb ttl deadline then ttl else deadline

-- Both deadlines of a message that starts now.
abbrev pub deadlines : ℕ → ℕ → ℕ → Result (ℕ × ℕ)
deadlines now pace ttl = do
  deadline ← add now (deadline_for pace ttl)
  next ← add now (scale pace (get_or retry_delays 0 0))
  ok (deadline, next)

abbrev pub started : ℕ → ℕ → ℕ → ℕ → Result (ℕ × ℕ) → State × Result (Unit {0})
started message_id generation fragment_count pace (err e) = (cleared, err e)
started message_id generation fragment_count pace (ok (deadline, next)) = (
  record {
    message_id = message_id;
    acknowledged = 0;
    deadline_ms = deadline;
    next_retry_ms = next;
    generation = generation;
    pace_ms = pace;
    fragment_count = fragment_count;
    retries = 0;
    active = true;
  },
  ok tt,
)

unfoldable pub start : State → ℕ → ℕ → ℕ → ℕ → ℕ → ℕ → State × Result (Unit {0})
start s message_id generation fragment_count now pace ttl =
    if message_id == 0
      || generation == 0
      || fragment_count == 0
      || ltb fragment_limit fragment_count
    then (s, err einval)
    else started message_id generation fragment_count pace (deadlines now pace ttl)

-- `ok true` is the return of 1: all fragments are acknowledged.
unfoldable pub ack : State → ℕ → ℕ → ℕ → ℕ → Bool → State × Result Bool
ack s message_id generation fragment_count bitmap rejected =
    let expected = mask fragment_count in
    let union = bit_or s.acknowledged bitmap in
    if not s.active
      || s.message_id != message_id
      || s.generation != generation
      || s.fragment_count != fragment_count
    then (s, err enoent)
    else if bitmap == 0 || has bitmap (inv64 expected)
    then (s, err eproto)
    else if rejected
    then (record s { acknowledged = union; active = false }, err econnrefused)
    else if union == expected
    then (record s { acknowledged = union; active = false }, ok true)
    else (record s { acknowledged = union }, ok false)

-- A deadline that overflows leaves the old one.
abbrev pub postponed : State → Result ℕ → State × Result (Option ℕ)
postponed s (ok next) = (record s { next_retry_ms = next }, ok none)
postponed s (err e) = (s, err e)

abbrev pub retried : State → ℕ → Result ℕ → State × Result (Option ℕ)
retried s missing (ok next) = (record s { next_retry_ms = next }, ok (some missing))
retried s missing (err e) = (record s { active = false }, err e)

-- A retransmission of what is missing.
unfoldable pub retry : State → ℕ → State × Result (Option ℕ)
retry s now =
    let missing = bit_and (mask s.fragment_count) (inv64 s.acknowledged) in
    let s' = record s { retries = u8 (s.retries + 1) } in
    if s'.retries == retry_limit
    then (record s' { next_retry_ms = s.deadline_ms }, ok (some missing))
    else retried s' missing (add now (delay s'))

-- `ok (some missing)` is the return of 1 with `*missing`, `ok none` that of 0.
unfoldable pub poll : State → ℕ → Bool → State × Result (Option ℕ)
poll s now queued =
    if not s.active
    then (s, err enoent)
    else if leb s.deadline_ms now
    then (record s { active = false }, err etimedout)
    else if queued
    then postponed s (add now (delay s))
    else if ltb now s.next_retry_ms
    then (s, ok none)
    else if leb retry_limit s.retries
    then (record s { active = false }, err etimedout)
    else retry s now
