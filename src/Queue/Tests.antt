-- ===== src/Queue/Tests.antt =====
-- Runs of the scheduler and of the reservations, and their theorems at concrete inputs.
use melodi.Slots.{index, total, scan, after}
use melodi.Queue.{
  Entry, Schedule, Queue, Request, no_entry, no_peer_turn, no_flow_turn, Reservation,
  no_reservation,
}
use melodi.Queue.Scheduler.{
  is_waiting, is_control, is_data, pick_priority, priority_loop, data_frame, select, take_turn,
}
use melodi.Queue.Fairness.{WellTurned, Next, data_frame-Next}
use melodi.Queue.Liveness.{Moment, picks, includes, picks-live}
use melodi.Queue.Selection.{select-oldest, sent-some_data, Sending, DataWaits, sent, some_data}
use melodi.Queue.Reservations.{
  reservation_seal, reservation_claim, reservation_find, has_id, namespace_get, namespace_find,
  namespace_update,
}
use melodi.Queue.Reserve.{
  Asked, reserve, reserve_checks, reserve_in, capacity, room, data_count, frames, peer_count,
  service_count, binding_count, peer_locked, place_of, flow_locked, open_flow, open_peer, same_flow,
  write_reservation,
}
use melodi.Queue.Accounts.{IsAccounts}
use melodi.Queue.Ledger.{
  Operation, to_reserve, to_cancel, to_seal, to_claim, operate, operate_all, operate_all-IsAccounts,
}
use melodi.Queue.Sealing.{claim-seal}
use melodi.Queue.Once.{claim_once}
use melodi.Base.{
  zero, suc, length, get_or, replicate, All, ok, err, enoent, etimedout, ℕ, ◌≤◌, ◌<◌, ◌≡◌, refl,
  true, false, some, List, [], ◌∷◌, arith,
}

-- A frame of a flow to a peer, by the number of the frame and its priority.
abbrev frame_of : (sequence priority peer flow : ℕ) → Entry
frame_of sequence priority peer flow = record no_entry {
  sequence = sequence;
  priority = priority;
  peer_index = peer;
  flow_index = flow;
  active = true;
}

-- Peer 0 has two flows; peer 1 has had its turn; a control frame waits too.
abbrev waiting : List Entry
waiting =
    frame_of 1 0 1 2
    ∷ frame_of 4 0 0 0
    ∷ frame_of 3 0 0 1
    ∷ frame_of 2 3 0 1
    ∷ record (frame_of 9 0 0 0) { control = true }
    ∷ []

abbrev turns : Schedule
turns = record {
  tx_queue = waiting;
  tx_peers =
      record no_peer_turn { turn = 2; active = true }
      ∷ record no_peer_turn { turn = 5; active = true }
      ∷ [];
  tx_flows =
      record no_flow_turn { turn = 2; active = true }
      ∷ record no_flow_turn { turn = 1; active = true }
      ∷ record no_flow_turn { turn = 5; active = true }
      ∷ [];
  tx_scheduler_turn = 5;
  tx_priority_slot = 0;
  tx_control_burst = 8;
}

turns-WellTurned : WellTurned turns
turns-WellTurned = omega arith

picked_first : pick_priority 0 waiting 100 ≡ some (0, 1)
unfolding pick_priority priority_loop index is_data is_waiting
picked_first = refl

data_frame-Next_example :
    (i : ℕ) × Next turns 100 0 i
    × (data_frame turns 100 ≡ (
      take_turn
          (record turns { tx_priority_slot = 1 })
          (get_or waiting i no_entry).peer_index
          (get_or waiting i no_entry).flow_index,
      some i,
    ))
data_frame-Next_example = data_frame-Next turns 100 0 1 picked_first turns-WellTurned

abbrev at_100 : Moment
at_100 = record { queue = waiting; now = 100 }

picks-live_example : includes 3 (picks 4 (replicate 15 at_100)) ≡ true
unfolding is_data is_waiting
picks-live_example =
    picks-live 3 4 (replicate 15 at_100) (omega arith) (omega arith) (omega arith) (
      low,
      (
        low,
        (
          low,
          (low, (low, (low, (low, (low, (low, (low, (low, (low, (low, (low, (low, tt)))))))))))),
        ),
      ),
    )
  where
    low : (j : ℕ) × (j < 5) × (is_data 100 3 (get_or waiting j no_entry) ≡ true)
    low = (3, omega arith, refl)

abbrev nine : List Sending
nine = replicate 9 (record { schedule = turns; now = 100 })

nine-DataWaits : All DataWaits nine
unfolding is_data is_waiting
nine-DataWaits =
    let one : DataWaits (record { schedule = turns; now = 100 }) =
      ((3, omega arith, (3, omega arith, refl)), turns-WellTurned) in
    (one, (one, (one, (one, (one, (one, (one, (one, (one, tt)))))))))

sent-some_data_example : some_data (sent 0 nine) ≡ true
sent-some_data_example = sent-some_data 0 nine (omega arith) nine-DataWaits

abbrev quiet : Schedule
quiet = record turns { tx_control_burst = 7 }

select-oldest_example :
    (i : ℕ) × (select quiet 100 ≡ (quiet, some i))
    × (i < 5)
    × (is_control 100 (get_or waiting i no_entry) ≡ true)
    × All (λ o. is_control 100 o ≡ true → (get_or waiting i no_entry).sequence ≤ o.sequence) waiting
unfolding is_control is_waiting
select-oldest_example =
    select-oldest quiet 100 (4, omega arith, refl) turns-WellTurned (omega arith)

-- A hash for the tests: the number of octets.
abbrev measure_of : List ℕ → ℕ
measure_of octets = length octets

abbrev request : Request
request = record {
  destination = 1 ∷ replicate 32 5;
  message_id = 0;
  session_epoch = 1;
  ttl_ms = 2000;
  binding_portid = 7;
  identity_generation = 1;
  source_locator = 3;
  binding_generation = 1;
  service = 9;
  destination_service = 9;
  priority = 1;
  broadcast = false;
  reliable = true;
  control = false;
}

abbrev asked : Asked
asked = record {
  now = 50;
  allocated = true;
  net = 1;
  locator = 8;
  request = request;
  count = 3;
  bytes = 600;
  logical_length = 500;
  cookie = 77;
  reliable = true;
  active_pending = 0;
}

abbrev empty : Queue
empty = record {
  schedule = record {
    tx_queue = replicate 128 no_entry;
    tx_peers = replicate 64 no_peer_turn;
    tx_flows = replicate 64 no_flow_turn;
    tx_scheduler_turn = 0;
    tx_priority_slot = 0;
    tx_control_burst = 0;
  };
  tx_reservations = replicate 128 no_reservation;
  tx_reservation_sequence = 0;
  tx_queue_bytes = 0;
  tx_reserved_bytes = 0;
  tx_queue_count = 0;
  tx_reserved_count = 0;
  tx_pending_reserved = 0;
  tx_queue_stopping = false;
  namespaces = [];
}

empty-IsAccounts : IsAccounts empty
unfolding total
empty-IsAccounts = record {
  queued_eq = refl;
  queued_bytes_eq = refl;
  held_eq = refl;
  held_bytes_eq = refl;
  pending_eq = refl;
  frames_fit = omega arith;
  bytes_fit = omega arith;
  pending_fit = omega arith;
}

abbrev life : List Operation
life =
    to_reserve asked
    ∷ to_seal 1 (4 ∷ 5 ∷ [])
    ∷ to_claim 1 (4 ∷ 5 ∷ [])
    ∷ to_cancel 1 etimedout true
    ∷ []

operate_all-IsAccounts_example : IsAccounts (operate_all measure_of empty life)
operate_all-IsAccounts_example = operate_all-IsAccounts measure_of empty life empty-IsAccounts

-- One reservation, as it is after melodi_queue_reserve.
abbrev one : Queue
one = record empty {
  tx_reservations = record no_reservation { id = 1; active = true } ∷ replicate 127 no_reservation;
}

found_one : reservation_find one 1 ≡ some 0
unfolding reservation_find index has_id
found_one = refl

claim-seal_example :
    (reservation_claim measure_of (reservation_seal measure_of one 1 (4 ∷ 5 ∷ [])).0 1 (6 ∷ [])).1
    ≡ err enoent
claim-seal_example =
    claim-seal measure_of one 1 0 found_one (4 ∷ 5 ∷ []) (6 ∷ []) refl refl refl refl

free_slots : (n : ℕ) → All (λ (r : Reservation). r.active ≡ false) (replicate n no_reservation)
free_slots zero = tt
free_slots (suc n) = (refl, free_slots n)

-- A reservation that is made and sealed, and then claimed.
abbrev made_and_sealed : List Operation
made_and_sealed = to_reserve asked ∷ to_seal 1 (4 ∷ 5 ∷ []) ∷ []

abbrev later : List Operation
later = to_seal 1 (6 ∷ []) ∷ to_reserve asked ∷ to_cancel 2 etimedout true ∷ []

claimed_first :
    (reservation_claim measure_of (operate_all measure_of empty made_and_sealed) 1 (4 ∷ 5 ∷ [])).1
    ≡ ok tt
unfolding reservation_claim reservation_find index has_id operate_all operate reservation_seal
    reserve reserve_checks namespace_get namespace_find namespace_update reserve_in capacity room
    data_count frames total peer_count service_count binding_count peer_locked place_of flow_locked
    open_flow open_peer same_flow write_reservation scan after
claimed_first = refl

claim_once_example :
    (reservation_claim measure_of
      (operate_all measure_of
        (reservation_claim measure_of
          (operate_all measure_of empty made_and_sealed)
          1
          (4 ∷ 5 ∷ [])).0
        later)
      1
      (4 ∷ 5 ∷ [])).1
    ≡ err enoent
claim_once_example =
    claim_once measure_of empty made_and_sealed later 1 (4 ∷ 5 ∷ []) (4 ∷ 5 ∷ []) (free_slots 128)
      claimed_first
