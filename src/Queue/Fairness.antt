-- ===== src/Queue/Fairness.antt =====
-- melodi_queue_data of kernel/core/queue.c: the peer, the flow and the frame that it takes.
use melodi.Queue.{Schedule, no_entry, no_peer_turn, no_flow_turn}
use melodi.Queue.Scheduler.{
  is_data, of_peer, of_flow, peer_turn, flow_turn, next_peer, next_flow, next_frame, pick_priority,
  cycle_length, take_turn, data_frame, taken_frame,
}
use melodi.Base.{
  length, get_or, All, All-mono, u64_max, ℕ, ◌%◌, ◌≤◌, ◌<◌, ◌≡◌, refl, sym, ap, ◌∙◌, true, Option,
  some, arith,
}
use melodi.Queue.Rounds.{
  least_turn-some, least_turn_le, of_flow-true, of_peer-true, oldest-some, oldest_le,
  priority_loop-Ready, true-of_flow, true-of_peer,
}

-- The counters of the queue are not used up, for every entry.
abbrev pub WellTurned : Schedule → Type 0
WellTurned q =
    All
      (λ e.
        (e.sequence < u64_max)
        × (peer_turn q.tx_peers e ≤ u64_max)
        × (flow_turn q.tx_flows e ≤ u64_max))
      q.tx_queue

-- Entry `i` is the one to send at a priority.
pub record Next (q : Schedule) (now priority i : ℕ) : Type 0 where
  pub in_queue : i < length q.tx_queue
  pub is_ready : is_data now priority (get_or q.tx_queue i no_entry) ≡ true
  pub peer_least :
      All
        (λ o.
          is_data now priority o ≡ true
          → peer_turn q.tx_peers (get_or q.tx_queue i no_entry) ≤ peer_turn q.tx_peers o)
        q.tx_queue
  pub flow_least :
      All
        (λ o.
          is_data now priority o ≡ true
          → o.peer_index ≡ (get_or q.tx_queue i no_entry).peer_index
          → flow_turn q.tx_flows (get_or q.tx_queue i no_entry) ≤ flow_turn q.tx_flows o)
        q.tx_queue
  pub frame_oldest :
      All
        (λ o.
          is_data now priority o ≡ true
          → o.peer_index ≡ (get_or q.tx_queue i no_entry).peer_index
          → o.flow_index ≡ (get_or q.tx_queue i no_entry).flow_index
          → (get_or q.tx_queue i no_entry).sequence ≤ o.sequence)
        q.tx_queue

data_frame-steps :
    (q : Schedule) (now priority slot peer flow i : ℕ)
    → pick_priority q.tx_priority_slot q.tx_queue now ≡ some (priority, slot)
    → (next_peer q now priority).selected ≡ some peer
    → (next_flow q now priority (some peer)).selected ≡ some flow
    → (next_frame q now priority (some peer) (some flow)).selected ≡ some i
    → data_frame q now ≡ (take_turn (record q { tx_priority_slot = slot }) peer flow, some i)
unfolding data_frame taken_frame next_peer next_flow next_frame
data_frame-steps q now priority slot peer flow i picked at_peer at_flow at_frame =
    let q' : Schedule = record q { tx_priority_slot = slot } in
    rw (picked, data_frame)
      ((λ j.
          let by_peer : Option ℕ = at_peer j in
          let by_flow : Option ℕ = (next_flow q' now priority by_peer).selected in
          taken_frame q' by_peer by_flow (next_frame q' now priority by_peer by_flow).selected)
        ∙ (λ j.
            let by_flow : Option ℕ = at_flow j in
            taken_frame q' (some peer) by_flow
              (next_frame q' now priority (some peer) by_flow).selected)
        ∙ (λ j. taken_frame q' (some peer) (some flow) (at_frame j)))

-- Where the counters are not used up, melodi_queue_data takes the frame that is next at the priority
-- picked: of the peers with a frame that waits, one whose turn was longest ago; of the flows to that
-- peer with such a frame, one whose turn was longest ago; of that flow the oldest frame. The turn is
-- recorded for the peer and the flow of that frame.
pub data_frame-Next :
    (q : Schedule) (now priority slot : ℕ)
    → pick_priority q.tx_priority_slot q.tx_queue now ≡ some (priority, slot)
    → WellTurned q
    → (i : ℕ) × Next q now priority i
      × (data_frame q now ≡ (
        take_turn
            (record q { tx_priority_slot = slot })
            (get_or q.tx_queue i no_entry).peer_index
            (get_or q.tx_queue i no_entry).flow_index,
        some i,
      ))
unfolding pick_priority next_peer next_flow next_frame
data_frame-Next q now priority slot picked turned =
    let es = q.tx_queue in
    let waits = is_data now priority in
    let (pa, in_a, on_a, result_a) =
      least_turn-some waits (peer_turn q.tx_peers) (λ e. e.peer_index) es
        (All-mono es (λ e t. (t.1, t.0)) turned)
        (priority_loop-Ready cycle_length (q.tx_priority_slot % cycle_length) es now priority slot
          picked) in
    let a = get_or es pa no_entry in
    let of_a = of_peer now priority (some a.peer_index) in
    let (pb, in_b, on_b, result_b) =
      least_turn-some of_a (flow_turn q.tx_flows) (λ e. e.flow_index) es
        (All-mono es (λ e t. (t.2, t.0)) turned)
        (pa, in_a, true-of_peer now priority a.peer_index a on_a refl) in
    let b = get_or es pb no_entry in
    let of_b = of_flow now priority (some a.peer_index) (some b.flow_index) in
    let (i, in_i, on_i, result_i) =
      oldest-some of_b es (All-mono es (λ e t. t.0) turned)
        (pb, in_b, true-of_flow now priority a.peer_index b b.flow_index on_b refl) in
    let e = get_or es i no_entry in
    let (e_of_peer, e_flow) = of_flow-true now priority a.peer_index e b.flow_index on_i in
    let (e_data, e_peer) = of_peer-true now priority a.peer_index e e_of_peer in
    let taken =
      data_frame-steps q now priority slot a.peer_index b.flow_index i picked
        (ap (λ t. t.selected) result_a) (ap (λ t. t.selected) result_b)
        (ap (λ t. t.selected) result_i) in
    (
      i,
      record {
        in_queue = in_i;
        is_ready = e_data;
        peer_least =
            All-mono es
              (λ o le on.
                omega (arith, le on, ap (λ k. (get_or q.tx_peers k no_peer_turn).turn) e_peer))
              (least_turn_le waits (peer_turn q.tx_peers) (λ o. o.peer_index) es a result_a);
        flow_least =
            All-mono es
              (λ o le on same. omega (
                arith,
                le (true-of_peer now priority a.peer_index o on (same ∙ e_peer)),
                ap (λ k. (get_or q.tx_flows k no_flow_turn).turn) e_flow,
              ))
              (least_turn_le of_a (flow_turn q.tx_flows) (λ o. o.flow_index) es b result_b);
        frame_oldest =
            All-mono es
              (λ o le on same same_flow. le (
                true-of_flow now priority a.peer_index o b.flow_index
                  (true-of_peer now priority a.peer_index o on (same ∙ e_peer))
                  (same_flow ∙ e_flow)))
              (oldest_le of_b es e i result_i);
      },
      taken ∙ (λ j.
          (take_turn (record q { tx_priority_slot = slot }) (sym e_peer j) (sym e_flow j), some i)),
    )
