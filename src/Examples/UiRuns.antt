-- ===== src/Examples/UiRuns.antt =====
-- Runs of the recovery UI.
use zmk_usb_bridge.Prelude.{◌+◌, ◌≡◌, refl, List, [], ◌∷◌, some}
use zmk_usb_bridge.Types.{ok, State}
use zmk_usb_bridge.Ui.{dark, set_state, pattern_for_state}
use zmk_usb_bridge.Ui.Button.{
  Happening, happen_all, presses, button_events, owed_events, one_event_per_press,
}
use zmk_usb_bridge.Ui.Led.{shown, led_timer, fire, set_state-shows}
use zmk_usb_bridge.Examples.{working, world}

abbrev short_press : List Happening
short_press =
    Happening.edge ∷ Happening.edge ∷ Happening.debounced ∷ Happening.edge ∷ Happening.debounced
    ∷ Happening.held ∷ []

one_event_per_press_example :
    let after = happen_all working short_press world in
    button_events after.calls + owed_events after + 0 ≡ presses after.calls + 0 + 0
unfolding button_events presses owed_events
one_event_per_press_example = one_event_per_press working short_press world (refl, refl)

set_state-shows_example :
    let after = fire 3 (set_state State.pairing_scan world).1 in
    ((set_state State.pairing_scan world).0 ≡ ok)
    × (shown after.calls ≡ some dark)
    × (led_timer after.calls ≡ some 500)
unfolding pattern_for_state
set_state-shows_example = set_state-shows State.pairing_scan 3 world
