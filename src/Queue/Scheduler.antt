-- ===== src/Queue/Scheduler.antt =====
-- Which frame goes next: melodi_queue_oldest_control, melodi_queue_priority and melodi_queue_data of
-- kernel/core/queue.c.
use melodi.Slots.{index}
use melodi.Queue.{
  Entry, PeerTurn, FlowTurn, Schedule, no_peer_turn, no_flow_turn, tx_control_burst_limit,
}
use melodi.Base.{
  ltb, leb, ◌==◌, if◌then◌else◌, get_or, set, replicate, u64_max, ℕ, zero, suc, ◌+◌, ◌%◌, Bool,
  false, not, ◌&&◌, ◌||◌, Option, none, some, List, [], ◌∷◌, ◌++◌,
}

abbrev pub priority_cycle : List ℕ
priority_cycle = replicate 8 0 ++ replicate 4 1 ++ replicate 2 2 ++ 3 ∷ []

abbrev pub cycle_length : ℕ
cycle_length = 15

unfoldable pub is_waiting : ℕ → Entry → Bool
is_waiting now e = e.active && not e.in_flight && leb e.defer_until_ms now

unfoldable pub is_control : ℕ → Entry → Bool
is_control now e = is_waiting now e && e.control

unfoldable pub is_data : ℕ → ℕ → Entry → Bool
is_data now priority e = is_waiting now e && not e.control && e.priority == priority

-- The variables `sequence` and `selected` of the loops that look for the oldest frame.
pub record Oldest : Type 0 where
  pub sequence : ℕ
  pub selected : Option ℕ

-- One round takes a ready frame that is older than the best one.
unfoldable pub older : (Entry → Bool) → ℕ → Oldest → Entry → Oldest
older ready i best e =
    if ready e && ltb e.sequence best.sequence
    then record { sequence = e.sequence; selected = some i }
    else best

unfoldable pub oldest : (Entry → Bool) → ℕ → Oldest → List Entry → Oldest
oldest ready i best [] = best
oldest ready i best (e ∷ es) = oldest ready (i + 1) (older ready i best e) es

abbrev pub no_oldest : Oldest
no_oldest = record { sequence = u64_max; selected = none }

unfoldable pub oldest_control : List Entry → ℕ → Option ℕ
oldest_control queue now = (oldest (is_control now) 0 no_oldest queue).selected

-- The loop of `melodi_queue_priority` with some rounds left: the priority and the next slot.
unfoldable pub priority_loop : ℕ → ℕ → List Entry → ℕ → Option (ℕ × ℕ)
priority_loop zero slot queue now = none
priority_loop (suc rounds) slot queue now =
    let candidate = get_or priority_cycle slot 0 in
    let next_slot = (slot + 1) % cycle_length in
    let rest = priority_loop rounds next_slot queue now in
    elim (index (is_data now candidate) queue) [
      | some _ ↦ some (candidate, next_slot)
      | none ↦ rest
    ]

unfoldable pub pick_priority : ℕ → List Entry → ℕ → Option (ℕ × ℕ)
pick_priority slot queue now = priority_loop cycle_length (slot % cycle_length) queue now

-- The variables of the loops that look for the peer and for the flow whose turn was longest ago.
pub record Turn : Type 0 where
  pub turn : ℕ
  pub sequence : ℕ
  pub selected : Option ℕ

-- One round takes a ready frame whose turn was longer ago, or as long ago and whose frame is older.
unfoldable pub earlier : (Entry → Bool) → (Entry → ℕ) → (Entry → ℕ) → Turn → Entry → Turn
earlier ready turn mine best e =
    if ready e && (ltb (turn e) best.turn || (turn e == best.turn && ltb e.sequence best.sequence))
    then record { turn = turn e; sequence = e.sequence; selected = some (mine e) }
    else best

unfoldable pub least_turn : (Entry → Bool) → (Entry → ℕ) → (Entry → ℕ) → Turn → List Entry → Turn
least_turn ready turn mine best [] = best
least_turn ready turn mine best (e ∷ es) =
    least_turn ready turn mine (earlier ready turn mine best e) es

abbrev pub no_turn : Turn
no_turn = record { turn = u64_max; sequence = u64_max; selected = none }

-- `index == selected` where `selected` may be -1.
unfoldable pub is_selected : Option ℕ → ℕ → Bool
is_selected none i = false
is_selected (some j) i = i == j

abbrev pub peer_turn : List PeerTurn → Entry → ℕ
peer_turn turns e = (get_or turns e.peer_index no_peer_turn).turn

abbrev pub flow_turn : List FlowTurn → Entry → ℕ
flow_turn turns e = (get_or turns e.flow_index no_flow_turn).turn

unfoldable pub of_peer : ℕ → ℕ → Option ℕ → Entry → Bool
of_peer now priority peer e = is_data now priority e && is_selected peer e.peer_index

unfoldable pub of_flow : ℕ → ℕ → Option ℕ → Option ℕ → Entry → Bool
of_flow now priority peer flow e = of_peer now priority peer e && is_selected flow e.flow_index

unfoldable pub next_peer : Schedule → ℕ → ℕ → Turn
next_peer q now priority =
    least_turn (is_data now priority) (peer_turn q.tx_peers) (λ e. e.peer_index) no_turn q.tx_queue

unfoldable pub next_flow : Schedule → ℕ → ℕ → Option ℕ → Turn
next_flow q now priority peer =
    least_turn (of_peer now priority peer) (flow_turn q.tx_flows) (λ e. e.flow_index) no_turn
      q.tx_queue

unfoldable pub next_frame : Schedule → ℕ → ℕ → Option ℕ → Option ℕ → Oldest
next_frame q now priority peer flow = oldest (of_flow now priority peer flow) 0 no_oldest q.tx_queue

unfoldable pub clear_peer_turns : List PeerTurn → List PeerTurn
clear_peer_turns [] = []
clear_peer_turns (t ∷ ts) = record t { turn = 0 } ∷ clear_peer_turns ts

unfoldable pub clear_flow_turns : List FlowTurn → List FlowTurn
clear_flow_turns [] = []
clear_flow_turns (t ∷ ts) = record t { turn = 0 } ∷ clear_flow_turns ts

-- The turns start again before their counter would overflow.
unfoldable pub fresh_turns : Schedule → Schedule
fresh_turns q =
    if q.tx_scheduler_turn == u64_max
    then record q {
      tx_peers = clear_peer_turns q.tx_peers;
      tx_flows = clear_flow_turns q.tx_flows;
      tx_scheduler_turn = 0;
    }
    else q

unfoldable pub take_turn : Schedule → ℕ → ℕ → Schedule
take_turn q peer flow =
    let q = fresh_turns q in
    let turn = q.tx_scheduler_turn + 1 in
    record q {
      tx_peers = set q.tx_peers peer (record (get_or q.tx_peers peer no_peer_turn) { turn = turn });
      tx_flows = set q.tx_flows flow (record (get_or q.tx_flows flow no_flow_turn) { turn = turn });
      tx_scheduler_turn = turn;
    }

-- `-1` as an index, where the code has checked that it is not.
abbrev pub index_of : Option ℕ → ℕ
index_of none = 0
index_of (some i) = i

-- The end of `melodi_queue_data`, by what its three loops selected.
unfoldable pub taken_frame : Schedule → Option ℕ → Option ℕ → Option ℕ → Schedule × Option ℕ
taken_frame q peer flow none = (q, none)
taken_frame q peer flow (some i) = (take_turn q (index_of peer) (index_of flow), some i)

-- `melodi_queue_data`: the schedule after it, and the index of the frame.
unfoldable pub data_frame : Schedule → ℕ → Schedule × Option ℕ
data_frame q now = elim (pick_priority q.tx_priority_slot q.tx_queue now) [
  | none ↦ (q, none)
  | some (priority, slot) ↦
      let q = record q { tx_priority_slot = slot } in
      let peer = (next_peer q now priority).selected in
      let flow = (next_flow q now priority peer).selected in
      taken_frame q peer flow (next_frame q now priority peer flow).selected
]

-- The choice of `melodi_queue_work`: control frames first, up to eight in a row if data waits.
unfoldable pub select : Schedule → ℕ → Schedule × Option ℕ
select q now =
    let control = oldest_control q.tx_queue now in
    let after_data = data_frame q now in
    elim (if ltb q.tx_control_burst tx_control_burst_limit then control else none) [
      | some i ↦ (q, some i)
      | none ↦ elim (after_data.1) [
        | some i ↦ (after_data.0, some i)
        | none ↦ (after_data.0, control)
      ]
    ]

-- The control burst after a frame was handed to the driver: `selected_control` is whether it was a
-- control frame.
unfoldable pub burst_after : Bool → ℕ → ℕ
burst_after selected_control burst = if selected_control && ltb burst 255 then burst + 1 else 0
