-- ===== src/Replay/Tests.antt =====
-- Runs of the window.
use melodi.Base.{◌≡◌, refl, ◌↔◌, false, ◌∷◌, ok, []}
use melodi.Replay.Window.{reset, seen, shifted, mark}
use melodi.Replay.History.{Distinct, admit}
use melodi.Replay.Refinement.{
  Represents, reset-Represents, mark_refines, run, run-Distinct, seen-mark,
}

-- 5 and 7 are accepted, 5 again is not, and 100 shifts both out of the window.
mark_in_turn : (run reset [] (5 ∷ 7 ∷ 5 ∷ 100 ∷ 7 ∷ [])).1 ≡ 100 ∷ 7 ∷ 5 ∷ []
unfolding run mark shifted reset
mark_in_turn = refl

mark_refines_example :
    ((mark reset 5).1 ≡ (admit [] 5).1) × Represents (admit [] 5).0 (mark reset 5).0
mark_refines_example = mark_refines reset-Represents 5

run-Distinct_example :
    Distinct (run reset [] (5 ∷ 7 ∷ 5 ∷ [])).1
    × Represents (run reset [] (5 ∷ 7 ∷ 5 ∷ [])).1 (run reset [] (5 ∷ 7 ∷ 5 ∷ [])).0
run-Distinct_example = run-Distinct (5 ∷ 7 ∷ 5 ∷ []) reset-Represents tt

seen-mark_example : (seen reset 9 ≡ false) ↔ ((mark reset 9).1 ≡ ok tt)
seen-mark_example = seen-mark reset 9
