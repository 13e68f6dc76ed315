-- ===== src/Reliability/Tests.antt =====
-- An exchange of three fragments.
use melodi.Base.{
  List, [], ◌∷◌, ltb, if◌then◌else◌, bit, ok, ℕ, ◌+◌, ◌-◌, ◌≤◌, ◌<◌, ◌≡◌, refl, ◌≢◌, ◌↔◌, true,
  false, some, ◌∷◌, arith, [],
}
use melodi.Reliability.State.{
  State, cleared, mask, add, scale, delay, start, ack, poll, retry, retry_limit,
}
use melodi.Reliability.Bounds.{
  IsState, start-IsState, ack-IsState, Event, begun, acknowledged_by, polled_at, happen_all,
  happen_all-IsState,
}
use melodi.Reliability.Missing.{poll-exact, ack_complete, Completes}
use melodi.Reliability.Retries.{acked, polled, retransmissions, retransmissions-le}

cleared-IsState : IsState cleared
cleared-IsState = record {
  retries = omega arith;
  count = omega arith;
  acknowledged = omega arith;
  unfinished = λ on e. ground (arith, on);
}

abbrev sent : State
sent = (start cleared 7 1 3 1000 100 0).0

sent-IsState : IsState sent
sent-IsState = start-IsState cleared 7 1 3 1000 100 0 cleared-IsState

-- The bitmap of the fragments that are missing then.
abbrev rest : ℕ
rest = 5

-- Fragment 1 is acknowledged.
abbrev halfway : State
halfway = (ack sent 7 1 3 2 false).0

halfway-IsState : IsState halfway
halfway-IsState = ack-IsState sent 7 1 3 2 false sent-IsState (omega arith)

asked_for : (poll halfway 1200 false).1 ≡ ok (some 5)
unfolding poll retry ack start mask add scale delay
asked_for = refl

poll-exact_example :
    (halfway.active ≡ true)
    × (false ≡ false)
    × (1200 < halfway.deadline_ms)
    × (halfway.next_retry_ms ≤ 1200)
    × (halfway.retries < retry_limit)
    × ((i : ℕ)
        → bit i 5 ≡ (if ltb i halfway.fragment_count then 1 - bit i halfway.acknowledged else 0))
    × (rest ≢ 0)
poll-exact_example = poll-exact halfway 1200 false halfway-IsState asked_for

ack_complete_example :
    (((ack halfway 7 1 3 5 false).1 ≡ ok true) ↔ Completes halfway 7 1 3 5 false)
    × ((ack halfway 7 1 3 5 false
          ≡ (record halfway { acknowledged = mask 3; active = false }, ok true))
        ↔ Completes halfway 7 1 3 5 false)
ack_complete_example = ack_complete halfway 7 1 3 5 false halfway-IsState (omega arith)

-- The two missing fragments end the exchange.
all_acknowledged : (ack halfway 7 1 3 5 false).1 ≡ ok true
unfolding ack mask start add scale
all_acknowledged = refl

retransmissions-le_example :
    sent.retries
      + retransmissions sent (polled 1200 false ∷ acked 7 1 3 2 false ∷ polled 9000 true ∷ [])
    ≤ retry_limit
retransmissions-le_example =
    retransmissions-le sent (polled 1200 false ∷ acked 7 1 3 2 false ∷ polled 9000 true ∷ [])
      sent-IsState.retries

abbrev course : List Event
course = acknowledged_by 7 1 3 5 false ∷ polled_at 1200 false ∷ begun 8 1 64 1300 100 0 ∷ []

happen_all-IsState_example : IsState (happen_all halfway course)
happen_all-IsState_example = happen_all-IsState halfway course halfway-IsState (omega arith)
