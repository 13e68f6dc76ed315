-- ===== src/Queue/Selection.antt =====
-- The choice between control and data frames in melodi_queue_work, where one of them waits.
use melodi.Queue.{Schedule, no_entry, tx_control_burst_limit}
use melodi.Queue.Scheduler.{
  is_control, is_data, pick_priority, priority_cycle, cycle_length, oldest_control, data_frame,
  no_oldest, select, burst_after,
}
use melodi.Queue.Least.{oldest-found}
use melodi.Queue.Rounds.{Ready, oldest-some, oldest_le}
use melodi.Queue.Fairness.{WellTurned, data_frame-Next}
use melodi.Queue.Liveness.{priority_loop-Nearer, first_slot}
use melodi.Base.{
  ltb, Bool-cases, ◌⊎◌, inl, inr, none, not, ◌||◌, Bool, List, [], ◌∷◌, ap₂, length, get_or, All,
  All-mono, ℕ, ◌+◌, ◌-◌, ◌%◌, ◌≤◌, ◌<◌, ◌≡◌, refl, ap, ◌∙◌, true, false, some, arith,
}

-- A data frame that waits is found, at its priority or at one that comes before in the cycle.
pick_priority-some :
    (q : Schedule) (now priority : ℕ)
    → priority ≤ 3
    → Ready (is_data now priority) q.tx_queue
    → (c : ℕ) × (next : ℕ) × (pick_priority q.tx_priority_slot q.tx_queue now ≡ some (c, next))
unfolding pick_priority
pick_priority-some q now priority known ready =
    let (s, lt, there) = first_slot priority known in
    let slot = q.tx_priority_slot % cycle_length in
    let d = (s + 15 - slot) % 15 in
    let (c, next, result, _) =
      priority_loop-Nearer cycle_length slot q.tx_queue now priority d (omega arith) (omega arith)
        (ap (λ k. get_or priority_cycle k 0) {x = (slot + d) % cycle_length} {y = s} (omega arith)
          ∙ there)
        ready in
    (c, next, result)

-- Where a data frame waits, melodi_queue_data takes a data frame.
data_frame-some :
    (q : Schedule) (now priority : ℕ)
    → priority ≤ 3
    → Ready (is_data now priority) q.tx_queue
    → WellTurned q
    → (i : ℕ) × (c : ℕ) × ((data_frame q now).1 ≡ some i)
      × (i < length q.tx_queue)
      × (is_data now c (get_or q.tx_queue i no_entry) ≡ true)
data_frame-some q now priority known ready turned =
    let (c, next, picked) = pick_priority-some q now priority known ready in
    let (i, chosen, taken) = data_frame-Next q now c next picked turned in
    (i, c, ap (λ r. r.1) taken, chosen.in_queue, chosen.is_ready)

-- Once the count of control frames is at its limit of eight, a data frame that waits goes first.
select-is_data :
    (q : Schedule) (now priority : ℕ)
    → priority ≤ 3
    → Ready (is_data now priority) q.tx_queue
    → WellTurned q
    → 8 ≤ q.tx_control_burst
    → (i : ℕ) × (c : ℕ) × ((select q now).1 ≡ some i)
      × (i < length q.tx_queue)
      × (is_data now c (get_or q.tx_queue i no_entry) ≡ true)
unfolding select
select-is_data q now priority known ready turned burst =
    let (i, c, taken, lt, on) = data_frame-some q now priority known ready turned in
    let full : ltb q.tx_control_burst tx_control_burst_limit ≡ false = ground arith in
    (i, c, rw (select, full, taken) refl, lt, on)

-- Where a control frame waits and the count of control frames is below eight, the oldest one is chosen
-- and the schedule is left as it is.
pub select-oldest :
    (q : Schedule) (now : ℕ)
    → Ready (is_control now) q.tx_queue
    → WellTurned q
    → q.tx_control_burst < 8
    → (i : ℕ) × (select q now ≡ (q, some i))
      × (i < length q.tx_queue)
      × (is_control now (get_or q.tx_queue i no_entry) ≡ true)
      × All
          (λ o. is_control now o ≡ true → (get_or q.tx_queue i no_entry).sequence ≤ o.sequence)
          q.tx_queue
unfolding select oldest_control
select-oldest q now ready turned few =
    let es = q.tx_queue in
    let (i, lt, on, result) =
      oldest-some (is_control now) es (All-mono es (λ e t. t.0) turned) ready in
    let due : ltb q.tx_control_burst tx_control_burst_limit ≡ true = ground arith in
    (
      i,
      rw (select, due, oldest_control, ap (λ o. o.selected) result) refl,
      lt,
      on,
      oldest_le (is_control now) es (get_or es i no_entry) i result,
    )

-- Where data waits, a frame is chosen: a data frame, or a control frame while the count is below eight.
select-cases :
    (q : Schedule) (now priority : ℕ)
    → priority ≤ 3
    → Ready (is_data now priority) q.tx_queue
    → WellTurned q
    → (i : ℕ) × ((select q now).1 ≡ some i)
      × (((get_or q.tx_queue i no_entry).control ≡ false)
          ⊎ (((get_or q.tx_queue i no_entry).control ≡ true) × (q.tx_control_burst < 8)))
unfolding select oldest_control is_control is_data
select-cases q now priority known ready turned =
    let es = q.tx_queue in
    let (d, c, taken, _, data_on) = data_frame-some q now priority known ready turned in
    elim (Bool-cases (ltb q.tx_control_burst tx_control_burst_limit)) [
      | inr full ↦ (d, rw (select, full, taken) refl, inl (ground (arith, data_on)))
      | inl few ↦ elim (oldest-found (is_control now) 0 no_oldest es) [
        | inl nothing ↦ (
          d,
          rw (select, few, oldest_control, ap (λ o. o.selected) nothing, taken) refl,
          inl (ground (arith, data_on)),
        )
        | inr (p, _, on, result) ↦ (
          p,
          rw (select, few, oldest_control, ap (λ o. o.selected) result) (ap some (omega arith)),
          inr (ground (arith, on), ground (arith, few)),
        )
      ]
    ]

-- What is queued, and the time, when a frame is sent.
pub record Sending : Type 0 where
  pub schedule : Schedule
  pub now : ℕ

-- The schedule with a count of control frames.
abbrev pub counting : ℕ → Schedule → Schedule
counting burst q = record q { tx_control_burst = burst }

-- Of the frames that are sent one after the other, whether each is a control frame. The queue may
-- change in between; the count is carried on.
unfoldable pub sent : ℕ → List Sending → List Bool
sent burst [] = []
sent burst (m ∷ ms) = elim ((select (counting burst m.schedule) m.now).1) [
  | none ↦ sent burst ms
  | some i ↦
      let control = (get_or m.schedule.tx_queue i no_entry).control in
      control ∷ sent (burst_after control burst) ms
]

abbrev pub some_data : List Bool → Bool
some_data [] = false
some_data (control ∷ frames) = not control || some_data frames

-- A data frame waits whenever a frame is sent.
abbrev pub DataWaits : Sending → Type 0
DataWaits m =
    ((priority : ℕ) × (priority ≤ 3) × Ready (is_data m.now priority) m.schedule.tx_queue)
    × WellTurned m.schedule

sent-some :
    (burst i : ℕ) (m : Sending) (ms : List Sending)
    → (select (counting burst m.schedule) m.now).1 ≡ some i
    → sent burst (m ∷ ms)
      ≡ (get_or m.schedule.tx_queue i no_entry).control
        ∷ sent (burst_after (get_or m.schedule.tx_queue i no_entry).control burst) ms
unfolding sent
sent-some burst i m ms h = rw (h, sent) refl

counted :
    (burst : ℕ) {control : Bool}
    → control ≡ true
    → burst < 8
    → burst_after control burst ≡ burst + 1
unfolding burst_after
counted burst on few = ground arith

sent-within :
    (ms : List Sending) (burst : ℕ)
    → 8 < length ms + burst
    → 0 < length ms
    → All DataWaits ms
    → some_data (sent burst ms) ≡ true
sent-within [] burst enough there waits = absurd (omega arith)
sent-within (m ∷ ms) burst enough there ((ready, turned), waits) =
    let (priority, known, queued) = ready in
    let (i, chosen, which) =
      select-cases (counting burst m.schedule) m.now priority known queued turned in
    ap some_data (sent-some burst i m ms chosen) ∙ (elim which [
      | inl is_data_frame ↦ ground (arith, is_data_frame)
      | inr (control, few) ↦
          ap₂ (λ c b. not c || some_data (sent b ms)) control (counted burst control few)
          ∙ sent-within ms (burst + 1) (omega arith) (omega arith) waits
    ])

-- Of any nine frames that are sent one after the other, with data waiting each time, one is a data
-- frame, whatever the count of control frames stood at and whatever else is queued.
pub sent-some_data :
    (burst : ℕ) (ms : List Sending)
    → 9 ≤ length ms
    → All DataWaits ms
    → some_data (sent burst ms) ≡ true
sent-some_data burst ms enough waits = sent-within ms burst (omega arith) (omega arith) waits
