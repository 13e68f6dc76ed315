-- ===== src/Ordering/State.antt =====
-- struct melodi_order_state and its operations. Markers run from 1 to 2 ^ 32 - 1 and round again;
-- digit `i` of `pending` stands for the marker `i + 1` places after `expected`.
use melodi.Base.{
  ltb, leb, ◌==◌, if◌then◌else◌, Errno, Result, u8, u32, u32_max, u64_max, ◌<<<◌, ◌>>>◌, has, ok,
  err, einval, eoverflow, erange, ℕ, zero, suc, ◌+◌, ◌-◌, bit_or, ◌||◌,
}

abbrev pub order_window : ℕ
order_window = 32

abbrev pub gap_ms : ℕ
gap_ms = 5000

-- How many markers there are.
abbrev pub order_modulus : ℕ
order_modulus = 0xffff_ffff

pub record State : Type 0 where
  pub deadline_ms : ℕ
  pub expected : ℕ
  pub pending : ℕ

-- The results of admitting and of polling, with what is left in the output pointers.
pub data Outcome : Type 0 where
  held : Outcome
  released : (marker count : ℕ) → Outcome
  duplicate : Outcome
  failed : Errno → Outcome

unfoldable pub reset : State
reset = record { deadline_ms = 0; expected = 1; pending = 0 }

unfoldable pub next : ℕ → ℕ
next marker = if marker == u32_max then 1 else marker + 1

unfoldable pub deadline : ℕ → Result ℕ
deadline now = if ltb (u64_max - gap_ms) now then err eoverflow else ok (now + gap_ms)

-- `melodi_order_advance` counts down.
unfoldable pub advance : ℕ → ℕ → ℕ
advance marker zero = marker
advance marker (suc count) = advance (next marker) count

unfoldable pub distance : ℕ → ℕ → Result ℕ
distance expected marker =
    let expected_index = expected - 1 in
    let marker_index = marker - 1 in
    if expected == 0 || marker == 0
    then err einval
    else ok (
        u32 (
          if leb expected_index marker_index
          then marker_index - expected_index
          else order_modulus - (expected_index - marker_index)))

pub record Run : Type 0 where
  pub bits : ℕ
  pub expected : ℕ
  pub count : ℕ

-- The loop of `melodi_order_release`. A bitmap of 32 digits is used up after 32 rounds.
unfoldable pub release_loop : ℕ → ℕ → ℕ → ℕ → Run
release_loop zero bits expected count = record { bits = bits; expected = expected; count = count }
release_loop (suc fuel) bits expected count =
    let rest = release_loop fuel (bits >>> 1) (next expected) (u8 (count + 1)) in
    if has bits 1 then rest else record { bits = bits; expected = expected; count = count }

unfoldable pub release : State → ℕ → ℕ → State × Outcome
release s marker bits =
    let run = release_loop order_window bits (next marker) 1 in
    let pending = run.bits >>> 1 in
    (
      record {
        deadline_ms = if pending == 0 then 0 else s.deadline_ms;
        expected = run.expected;
        pending = pending;
      },
      released marker run.count,
    )

-- A marker ahead of the expected one, at digit `forward - 1`.
unfoldable pub hold : State → ℕ → ℕ → State × Outcome
hold s now mark =
    if has s.pending mark
    then (s, duplicate)
    else if s.deadline_ms == 0
    then elim (deadline now) [
      | ok deadline ↦ (record s { deadline_ms = deadline; pending = bit_or s.pending mark }, held)
      | err e ↦ (s, failed e)
    ]
    else (record s { pending = bit_or s.pending mark }, held)

-- The decision of `melodi_order_admit` by the distance.
unfoldable pub place : State → ℕ → ℕ → ℕ → State × Outcome
place s marker now forward =
    if forward == 0
    then release s marker s.pending
    else if leb forward order_window
    then hold s now (1 <<< (forward - 1))
    else (s, if leb (order_modulus - forward) order_window then duplicate else failed erange)

unfoldable pub admit : State → ℕ → ℕ → State × Outcome
admit s marker now =
    if s.expected == 0 then (s, failed einval) else elim (distance s.expected marker) [
      | ok forward ↦ place s marker now forward
      | err e ↦ (s, failed e)
    ]

pub record Skip : Type 0 where
  pub bits : ℕ
  pub skipped : ℕ

-- The loop of `melodi_order_poll` that looks for the first pending marker.
unfoldable pub skip_loop : ℕ → ℕ → ℕ → Skip
skip_loop zero bits skipped = record { bits = bits; skipped = skipped }
skip_loop (suc fuel) bits skipped =
    let rest = skip_loop fuel (bits >>> 1) (u8 (skipped + 1)) in
    if has bits 1 then record { bits = bits; skipped = skipped } else rest

-- What follows the release of a poll.
unfoldable pub rearm : ℕ → State × Outcome → State × Outcome
rearm now (s, outcome) = if s.pending == 0 then (s, outcome) else elim (deadline now) [
  | ok deadline ↦ (record s { deadline_ms = deadline }, outcome)
  | err e ↦ (s, failed e)
]

unfoldable pub poll : State → ℕ → State × Outcome
poll s now =
    let first = skip_loop order_window s.pending 0 in
    let marker = advance s.expected (u8 (first.skipped + 1)) in
    if s.expected == 0
    then (s, failed einval)
    else if s.pending == 0 || ltb now s.deadline_ms
    then (s, held)
    else rearm now (release s marker (first.bits >>> 1))
