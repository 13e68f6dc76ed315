-- ===== src/Airtime/Tests.antt =====
-- Requests to the window.
use melodi.Base.{ℕ, ◌+◌, ◌≤◌, ◌<◌, ◌≡◌, refl, ◌↔◌, ◌⊎◌, arith}
use melodi.Airtime.Window.{
  Window, reset, advance, expire, first_fit, charge, admit, admitted, deferred,
}
use melodi.Airtime.Invariant.{IsWindow, reset-IsWindow, admit-IsWindow}
use melodi.Airtime.Deferral.{admit-total, deferred-exact}

-- The window after a cost of 600 of a budget of 1000.
abbrev charged : Window
charged = (admit reset 0 1000 600).0

charged-IsWindow : IsWindow charged
charged-IsWindow = admit-IsWindow reset 0 1000 600 reset-IsWindow (omega arith)

abbrev asked_again : Window
asked_again = (admit charged 20000 1000 600).0

-- Twenty seconds later the same cost waits until the first one is an hour old.
deferred_once : admit charged 20000 1000 600 ≡ (asked_again, deferred 3580000)
unfolding admit charge advance reset expire first_fit
deferred_once = refl

deferred-exact_example :
    ((admit asked_again 3600000 1000 600).1 ≡ admitted) ↔ (20000 + 3580000 ≤ 3600000)
deferred-exact_example =
    deferred-exact charged asked_again 20000 1000 600 3580000 3600000 charged-IsWindow (omega arith)
      (omega arith) (omega arith) deferred_once (omega arith) (omega arith)

admit-total_example :
    ((admit charged 20000 1000 600).1 ≡ admitted)
    ⊎ (wait : ℕ) × ((admit charged 20000 1000 600).1 ≡ deferred wait)
      × (0 < wait)
      × (wait ≤ 3600000)
admit-total_example =
    admit-total charged 20000 1000 600 charged-IsWindow (omega arith) (omega arith) (omega arith)
      (omega arith)

admit-IsWindow_example : IsWindow (admit charged 20000 1000 300).0
admit-IsWindow_example = admit-IsWindow charged 20000 1000 300 charged-IsWindow (omega arith)
