-- ===== src/Ordering/Tests.antt =====
-- Messages out of order.
use melodi.Base.{suc, ◌+◌, ◌≡◌, refl, arith}
use melodi.Ordering.State.{State, reset, admit, place, hold, distance, deadline, poll}
use melodi.Ordering.Positions.{IsOrder, reset-IsOrder, Holds, Releases, admit_expected, admit_ahead}
use melodi.Ordering.Progress.{PassesGap, poll_due}

-- The message at position 2 arrives first.
abbrev early : State
early = (admit reset 3 1000).0

early-Holds : Holds 0 1 reset early (admit reset 3 1000).1
early-Holds = admit_ahead reset-IsOrder 1000 1 (omega arith) (omega arith)

early-IsOrder : IsOrder 0 early
early-IsOrder = early-Holds.keeps_IsOrder

admit_ahead_example : Holds 0 2 early (admit early 4 1010).0 (admit early 4 1010).1
admit_ahead_example = admit_ahead early-IsOrder 1010 2 (omega arith) (omega arith)

admit_expected_example :
    (f : Releases 0 early.pending early (admit early 1 1010).0 (admit early 1 1010).1) × IsOrder
      (0 + suc f.others)
      (admit early 1 1010).0
admit_expected_example = admit_expected early-IsOrder 1010

-- A marker 40 places behind is out of range.
early_digit : early.pending ≡ 2
unfolding admit reset place hold distance deadline
early_digit = refl

early_deadline : early.deadline_ms ≡ 6000
unfolding admit reset place hold distance deadline
early_deadline = refl

poll_due_example : PassesGap 0 6000 early (poll early 6000).0 (poll early 6000).1
poll_due_example =
    poll_due early-IsOrder 6000 (λ e. omega (arith, e, early_digit)) (omega (arith, early_deadline))
      (omega arith)
