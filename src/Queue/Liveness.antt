-- ===== src/Queue/Liveness.antt =====
-- The cycle of melodi_queue_priority over successive calls.
use melodi.Slots.{index}
use melodi.Slots.Index.{index-get_or}
use melodi.Queue.{Entry, no_entry}
use melodi.Queue.Scheduler.{is_data, priority_loop, pick_priority, priority_cycle, cycle_length}
use melodi.Queue.Rounds.{Ready, priority_loop-none, priority_loop-some}
use melodi.Base.{
  ◌==◌, Option-cases, length, get_or, All, ℕ, zero, suc, ◌+◌, ◌-◌, ◌%◌, ◌≤◌, ◌<◌, ◌≡◌, refl, ap,
  ◌∙◌, ◌⊎◌, inl, inr, Bool, true, false, ◌||◌, none, some, List, [], ◌∷◌, arith,
}

-- The slot that is some steps ahead in the cycle is one of the priority.
abbrev pub Ahead : (priority slot d : ℕ) → Type 0
Ahead priority slot d = get_or priority_cycle ((slot + d) % cycle_length) 0 ≡ priority

-- What the scheduler picks: the priority itself, or a slot that is nearer to one of the priority.
abbrev pub Nearer : (priority d c next : ℕ) → Type 0
Nearer priority d c next =
    (c ≡ priority) ⊎ ((d' : ℕ) × (d' < d) × (next < 15) × Ahead priority next d')

pub priority_loop-Nearer :
    (rounds slot : ℕ) (es : List Entry) (now priority d : ℕ)
    → d < rounds
    → slot < 15
    → Ahead priority slot d
    → Ready (is_data now priority) es
    → (c : ℕ) × (next : ℕ) × (priority_loop rounds slot es now ≡ some (c, next))
      × Nearer priority d c next
priority_loop-Nearer zero slot es now priority d lt fits ahead ready = absurd (omega arith)
priority_loop-Nearer (suc rounds) slot es now priority zero lt fits ahead (i, in_queue, on) =
    let here : get_or priority_cycle slot 0 ≡ priority =
      ap (λ k. get_or priority_cycle k 0) {x = slot} {y = (slot + 0) % cycle_length} (omega arith)
      ∙ ahead in
    let (j, at) = index-get_or (is_data now priority) es i no_entry in_queue on in
    (
      get_or priority_cycle slot 0,
      (slot + 1) % cycle_length,
      priority_loop-some rounds slot es now j (ap (λ k. index (is_data now k) es) here ∙ at),
      inl here,
    )
priority_loop-Nearer (suc rounds) slot es now priority (suc d) lt fits ahead ready =
    let next = (slot + 1) % cycle_length in
    let ahead' : Ahead priority next d =
      ap (λ k. get_or priority_cycle k 0) {x = (next + d) % cycle_length}
        {y = (slot + suc d) % cycle_length} (omega arith)
      ∙ ahead in
    elim (Option-cases (index (is_data now (get_or priority_cycle slot 0)) es)) [
      | inr (j, at) ↦ (
        get_or priority_cycle slot 0,
        next,
        priority_loop-some rounds slot es now j at,
        inr (d, omega arith, omega arith, ahead'),
      )
      | inl gone ↦
          let (c, later, result, nearer) =
            priority_loop-Nearer rounds next es now priority d (omega arith) (omega arith) ahead'
              ready in
          (
            c,
            later,
            priority_loop-none rounds slot es now gone ∙ result,
            elim nearer [
              | inl same ↦ inl same
              | inr (d', lt', fits', at) ↦ inr (d', omega arith, fits', at)
            ],
          )
    ]

-- The frames in the queue and the time, when the scheduler is asked.
pub record Moment : Type 0 where
  pub queue : List Entry
  pub now : ℕ

-- The priorities that are picked one after the other.
unfoldable pub picks : ℕ → List Moment → List ℕ
picks slot [] = []
picks slot (m ∷ ms) = elim (pick_priority slot m.queue m.now) [
  | none ↦ picks slot ms
  | some (priority, next) ↦ priority ∷ picks next ms
]

abbrev pub includes : ℕ → List ℕ → Bool
includes a [] = false
includes a (x ∷ xs) = x == a || includes a xs

picks-some :
    (slot priority next : ℕ) (m : Moment) (ms : List Moment)
    → pick_priority slot m.queue m.now ≡ some (priority, next)
    → picks slot (m ∷ ms) ≡ priority ∷ picks next ms
unfolding picks
picks-some slot priority next m ms h = rw (h, picks) refl

-- A priority some steps ahead is picked within that many turns and one.
picks-includes :
    (ms : List Moment) (slot priority d : ℕ)
    → slot < 15
    → d < 15
    → Ahead priority slot d
    → d < length ms
    → All (λ m. Ready (is_data m.now priority) m.queue) ms
    → includes priority (picks slot ms) ≡ true
unfolding pick_priority
picks-includes [] slot priority d fits small ahead enough ready = absurd (omega arith)
picks-includes (m ∷ ms) slot priority d fits small ahead enough ready =
    let start : slot % cycle_length ≡ slot = omega arith in
    let (c, next, result, nearer) =
      priority_loop-Nearer cycle_length slot m.queue m.now priority d small fits ahead ready.0 in
    let picked : pick_priority slot m.queue m.now ≡ some (c, next) =
      ap (λ k. priority_loop cycle_length k m.queue m.now) start ∙ result in
    ap (includes priority) (picks-some slot c next m ms picked) ∙ (elim nearer [
      | inl same ↦ ground (arith, same)
      | inr (d', lt, fits', ahead') ↦ ground (
        arith,
        picks-includes ms next priority d' fits' (omega arith) ahead' (omega arith) ready.1,
      )
    ])

-- The first slot of a priority.
pub first_slot :
    (priority : ℕ) → priority ≤ 3 → (s : ℕ) × (s < 15) × (get_or priority_cycle s 0 ≡ priority)
first_slot zero h = (0, omega arith, refl)
first_slot (suc zero) h = (8, omega arith, refl)
first_slot (suc (suc zero)) h = (12, omega arith, refl)
first_slot (suc (suc (suc zero))) h = (14, omega arith, refl)
first_slot (suc (suc (suc (suc p)))) h = absurd (omega arith)

-- A priority with a data frame waiting whenever the data scheduler is asked is picked at least once
-- in any 15 turns, whatever else is queued and wherever the cycle stands.
pub picks-live :
    (priority slot : ℕ) (ms : List Moment)
    → priority ≤ 3
    → slot < 15
    → 15 ≤ length ms
    → All (λ m. Ready (is_data m.now priority) m.queue) ms
    → includes priority (picks slot ms) ≡ true
picks-live priority slot ms known fits enough ready =
    let (s, lt, there) = first_slot priority known in
    let d = (s + 15 - slot) % 15 in
    picks-includes ms slot priority d fits (omega arith)
      (ap (λ k. get_or priority_cycle k 0) {x = (slot + d) % cycle_length} {y = s} (omega arith)
        ∙ there)
      (omega arith) ready
