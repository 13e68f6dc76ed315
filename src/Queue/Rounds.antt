-- ===== src/Queue/Rounds.antt =====
-- What the loops of melodi_queue_data find where a frame is ready.
use melodi.Slots.{index}
use melodi.Slots.Index.{index-lt, hit-index}
use melodi.Queue.{Entry, no_entry}
use melodi.Queue.Scheduler.{
  oldest, no_oldest, least_turn, no_turn, is_data, of_peer, of_flow, is_selected, priority_loop,
  priority_cycle, cycle_length,
}
use melodi.Queue.Least.{
  Before, turn_of, oldest-least, oldest-found, least_turn-least, least_turn-found,
}
use melodi.Base.{
  Option-cases, length, get_or, All, All_get, All-mono, u64_max, ℕ, zero, suc, ◌+◌, ◌%◌, ◌≤◌, ◌<◌,
  ◌≡◌, refl, sym, ap, ◌∙◌, subst, inl, inr, Bool, true, none, some, List, arith,
}

-- A place in the queue with a ready entry.
abbrev pub Ready : (Entry → Bool) → List Entry → Type 0
Ready ready es = (j : ℕ) × (j < length es) × (ready (get_or es j no_entry) ≡ true)

module _ (ready : Entry → Bool) (turn mine : Entry → ℕ) (es : List Entry) where
  -- Where an entry is ready, the loop takes one.
  pub least_turn-some :
      All (λ e. (turn e ≤ u64_max) × (e.sequence < u64_max)) es
      → Ready ready es
      → (p : ℕ) × (p < length es)
        × (ready (get_or es p no_entry) ≡ true)
        × (least_turn ready turn mine no_turn es ≡ turn_of ready turn mine (get_or es p no_entry))
  least_turn-some bounded (j, lt, on) = elim (least_turn-found ready turn mine no_turn es) [
    | inr taken ↦ taken
    | inl nothing ↦
        let (t, s) =
          All_get (λ e. (turn e ≤ u64_max) × (e.sequence < u64_max)) es j no_entry lt bounded in
        let before =
          All_get
            (λ e.
              ready e ≡ true
              → Before (least_turn ready turn mine no_turn es).turn
                  (least_turn ready turn mine no_turn es).sequence (turn e) e.sequence)
            es j no_entry lt (least_turn-least ready turn mine no_turn es) on in
        absurd (elim before [
          | inl late ↦ omega (arith, ap (λ o. o.turn) nothing)
          | inr (_, late) ↦ omega (arith, ap (λ o. o.sequence) nothing)
        ])
  ]

  pub least_turn_le :
      (e : Entry)
      → least_turn ready turn mine no_turn es ≡ turn_of ready turn mine e
      → All (λ o. ready o ≡ true → turn e ≤ turn o) es
  least_turn_le e taken =
      let at = ap (λ t. t.turn) taken in
      All-mono es
        (λ o before on. elim (before on) [
          | inl lt ↦ omega (arith, at)
          | inr (same, _) ↦ omega (arith, at)
        ])
        (least_turn-least ready turn mine no_turn es)

module _ (ready : Entry → Bool) (es : List Entry) where
  pub oldest-some :
      All (λ e. e.sequence < u64_max) es
      → Ready ready es
      → (p : ℕ) × (p < length es)
        × (ready (get_or es p no_entry) ≡ true)
        × (oldest ready 0 no_oldest es
            ≡ record { sequence = (get_or es p no_entry).sequence; selected = some p })
  oldest-some bounded (j, lt, on) = elim (oldest-found ready 0 no_oldest es) [
    | inr (p, at, yours, result) ↦ (
      p,
      at,
      yours,
      result
          ∙ ap (λ k. record { sequence = (get_or es p no_entry).sequence; selected = some k })
              (omega arith),
    )
    | inl nothing ↦ absurd (
        omega (
          arith,
          ap (λ o. o.sequence) nothing,
          All_get (λ e. e.sequence < u64_max) es j no_entry lt bounded,
          All_get (λ e. ready e ≡ true → (oldest ready 0 no_oldest es).sequence ≤ e.sequence) es j
              no_entry lt (oldest-least ready 0 no_oldest es) on,
        ))
  ]

  pub oldest_le :
      (e : Entry) (i : ℕ)
      → oldest ready 0 no_oldest es ≡ record { sequence = e.sequence; selected = some i }
      → All (λ o. ready o ≡ true → e.sequence ≤ o.sequence) es
  oldest_le e i taken =
      All-mono es (λ o least on. omega (arith, least on, ap (λ t. t.sequence) taken))
        (oldest-least ready 0 no_oldest es)

-- The two filters of the later loops.
module _ (now priority peer : ℕ) (e : Entry) where
  pub of_peer-true :
      of_peer now priority (some peer) e ≡ true
      → (is_data now priority e ≡ true) × (e.peer_index ≡ peer)
  unfolding of_peer is_selected
  of_peer-true h = (ground arith, ground arith)

  pub true-of_peer :
      is_data now priority e ≡ true
      → e.peer_index ≡ peer
      → of_peer now priority (some peer) e ≡ true
  unfolding of_peer is_selected
  true-of_peer h k = ground arith

  pub of_flow-true :
      (flow : ℕ)
      → of_flow now priority (some peer) (some flow) e ≡ true
      → (of_peer now priority (some peer) e ≡ true) × (e.flow_index ≡ flow)
  unfolding of_flow is_selected
  of_flow-true flow h = (ground arith, ground arith)

  pub true-of_flow :
      (flow : ℕ)
      → of_peer now priority (some peer) e ≡ true
      → e.flow_index ≡ flow
      → of_flow now priority (some peer) (some flow) e ≡ true
  unfolding of_flow is_selected
  true-of_flow flow h k = ground arith

-- One round of the loop over the priorities.
module _ (rounds slot : ℕ) (es : List Entry) (now : ℕ) where
  pub priority_loop-none :
      index (is_data now (get_or priority_cycle slot 0)) es ≡ none
      → priority_loop (suc rounds) slot es now
        ≡ priority_loop rounds ((slot + 1) % cycle_length) es now
  unfolding priority_loop
  priority_loop-none gone = rw (gone, priority_loop) refl

  pub priority_loop-some :
      (j : ℕ)
      → index (is_data now (get_or priority_cycle slot 0)) es ≡ some j
      → priority_loop (suc rounds) slot es now
        ≡ some (get_or priority_cycle slot 0, (slot + 1) % cycle_length)
  unfolding priority_loop
  priority_loop-some j at = rw (at, priority_loop) refl

-- The priority that is picked has a frame.
pub priority_loop-Ready :
    (rounds slot : ℕ) (es : List Entry) (now priority next : ℕ)
    → priority_loop rounds slot es now ≡ some (priority, next)
    → Ready (is_data now priority) es
unfolding priority_loop
priority_loop-Ready zero slot es now priority next h = ground arith
priority_loop-Ready (suc rounds) slot es now priority next h =
    let candidate = get_or priority_cycle slot 0 in
    elim (Option-cases (index (is_data now candidate) es)) [
      | inl gone ↦
          priority_loop-Ready rounds ((slot + 1) % cycle_length) es now priority next
            (sym (priority_loop-none rounds slot es now gone) ∙ h)
      | inr (j, at) ↦
          let same : candidate ≡ priority =
            cc (sym (priority_loop-some rounds slot es now j at) ∙ h) in
          subst (λ k. Ready (is_data now k) es) same
            (
              j,
              index-lt (is_data now candidate) es j at,
              hit-index (is_data now candidate) es j no_entry at,
            )
    ]
