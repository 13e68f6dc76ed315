-- ===== src/Replay/Window.antt =====
-- src/proto/replay.c: the window of counters that have been accepted from a peer.
-- A counter and the bitmap are `uint64_t`. The NULL tests have no counterpart: a window is a value.
use melodi.Base.{
  ℕ, ◌-◌, bit_or, Bool, true, false, ◌||◌, ltb, leb, ◌==◌, if◌then◌else◌, u64, ◌<<<◌, has, Result,
  ok, err, einval, ealready,
}

abbrev pub window_bits : ℕ
window_bits = 64

-- `struct melodi_replay_window`
pub record Window : Type 0 where
  pub highest : ℕ
  pub bitmap : ℕ

unfoldable pub reset : Window
reset = record { highest = 0; bitmap = 0 }

unfoldable pub seen : Window → ℕ → Bool
seen w counter =
    if counter == 0
    then true
    else if ltb w.highest counter
    then false
    else let distance = w.highest - counter in
      leb window_bits distance || has w.bitmap (1 <<< distance)

-- `melodi_replay_mark` returns the window beside its status.
-- The bitmap when the newest counter moves up by `distance`.
unfoldable pub shifted : ℕ → ℕ → ℕ
shifted bitmap distance =
    if leb window_bits distance then 1 else bit_or (u64 (bitmap <<< distance)) 1

-- `melodi_replay_mark` returns the window beside its status.
unfoldable pub mark : Window → ℕ → Window × Result (Unit {0})
mark w counter =
    let distance = w.highest - counter in
    if counter == 0
    then (w, err einval)
    else if ltb w.highest counter
    then (record { highest = counter; bitmap = shifted w.bitmap (counter - w.highest) }, ok tt)
    else if leb window_bits distance || has w.bitmap (1 <<< distance)
    then (w, err ealready)
    else (record w { bitmap = bit_or w.bitmap (1 <<< distance) }, ok tt)
