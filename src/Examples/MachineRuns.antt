-- ===== src/Examples/MachineRuns.antt =====
-- Runs of the state machine.
use zmk_usb_bridge.Prelude.{◌≡◌, refl, true, List, [], ◌∷◌, some}
use zmk_usb_bridge.Types.{ok, State, EventType, Event, Role}
use zmk_usb_bridge.World.{World}
use zmk_usb_bridge.Machine.{Sys, handle_event, dispatch}
use zmk_usb_bridge.Machine.Graph.{Edge, handle_event-Edge}
use zmk_usb_bridge.Machine.Trace.{run, Occurs, connected_needs_hid_ready, recovery_stays}
use zmk_usb_bridge.Bridge.Gate.{handle_all, Report}
use zmk_usb_bridge.System.{firmware}
use zmk_usb_bridge.System.Release.{input_cut_off, released}
use zmk_usb_bridge.Examples.{bench, sys, event, working, world}

handle_event-Edge_example :
    Edge EventType.hid_ready State.connecting
      (handle_event
        (bench true ok ok)
        (some (event EventType.hid_ready))
        (sys State.connecting true)).1.machine.state
handle_event-Edge_example =
    handle_event-Edge (bench true ok ok) (event EventType.hid_ready) (sys State.connecting true)

abbrev life : List Event
life =
    event EventType.known_device_found
    ∷ event EventType.connect_success
    ∷ event EventType.hid_ready
    ∷ event EventType.disconnected
    ∷ event EventType.connect_failure
    ∷ []

abbrev first_half : List Event
first_half =
    event EventType.known_device_found
    ∷ event EventType.connect_success
    ∷ event EventType.hid_ready
    ∷ []

half_connects :
    (run (bench true ok ok) first_half (sys State.scanning_known_device true)).machine.state
    ≡ State.connected
unfolding run handle_event dispatch
half_connects = refl

connected_needs_hid_ready_example : Occurs EventType.hid_ready first_half
connected_needs_hid_ready_example =
    connected_needs_hid_ready (bench true ok ok) first_half (sys State.scanning_known_device true)
      (λ e. cc) half_connects

abbrev ignored : List Event
ignored =
    event EventType.connect_failure
    ∷ event EventType.disconnected
    ∷ event EventType.button_short_press
    ∷ []

recovery_stays_example :
    (run (bench true ok ok) ignored (sys State.recovery_required true)).machine.state
    ≡ State.recovery_required
recovery_stays_example =
    recovery_stays (bench true ok ok) ignored (sys State.recovery_required true) refl
      (refl, (refl, (refl, tt)))

abbrev firmware_sys : Sys World
firmware_sys = record { machine = (sys State.connected true).machine; rest = world }

abbrev late_reports : List Report
late_reports =
    record {
      role = Role.keyboard_input;
      payload = some (0 ∷ 0 ∷ 4 ∷ 0 ∷ 0 ∷ 0 ∷ 0 ∷ 0 ∷ []);
      len = 8;
    }
    ∷ record { role = Role.consumer_input; payload = some (1 ∷ 0 ∷ []); len = 2 }
    ∷ []

input_cut_off_example :
    let after =
      (handle_event (firmware working) (some (event EventType.disconnected)) firmware_sys).1.rest in
    (after.bridge ≡ released working) × (handle_all working late_reports after ≡ after)
input_cut_off_example =
    input_cut_off working (event EventType.disconnected) firmware_sys late_reports refl refl
