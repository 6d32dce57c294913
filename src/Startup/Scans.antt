-- ===== src/Startup/Scans.antt =====
-- From the startup of main/src/startup.c to the first scan of main/src/state_machine.c.
use mathlib.Core.List.{reverse}
use zmk_usb_bridge.Prelude.{
  ◌≡◌, refl, arith, inl, inr, Bool, true, false, ◌∷◌, [], if◌then◌else◌, Bool-cases,
}
use zmk_usb_bridge.Types.{ok, EventType, State, Command}
use zmk_usb_bridge.World.{World, Platform}
use zmk_usb_bridge.Persist.{IsVersioned}
use zmk_usb_bridge.Queue.{make_event, posted, QueueTakes}
use zmk_usb_bridge.Runtime
use zmk_usb_bridge.Manager
use zmk_usb_bridge.Machine.{Services, Machine, handle_event, dispatch}
use zmk_usb_bridge.Machine.Trace.{run}
use zmk_usb_bridge.System.{firmware}
use zmk_usb_bridge.Startup.{bond_event, post_startup_events}
use zmk_usb_bridge.Startup.Posts.{
  simple_event, told, post_startup_events-told, post_startup_events_lem,
}

-- USB is up, and the machine waits for Bluetooth and the bonds.
abbrev pub waiting_machine : Bool → Machine
waiting_machine bonded = record {
  state = State.usb_ready;
  usb_ready = true;
  ble_synced = false;
  persist_ready = false;
  has_bond = bonded;
}

abbrev pub first_command : Bool → Command
first_command bonded =
    if bonded then Command.start_known_device_scan else Command.start_pairing_scan

abbrev pub first_scan : Bool → State
first_scan bonded = if bonded then State.scanning_known_device else State.pairing_scan

abbrev persist_event : Bool → EventType
persist_event bonded =
    if bonded then EventType.persist_ready_with_bond else EventType.persist_ready_no_bond

module _ {W : Type 0} (svc : Services W) where
  run-scans :
      (bonded known : Bool) (w : W)
      → svc.is_ready w ≡ true
      → svc.runtime_has_bond w ≡ bonded
      → (svc.execute_command (first_command bonded) w).0 ≡ ok
      → (run svc
          (simple_event EventType.ble_synced ∷ simple_event (persist_event bonded) ∷ [])
          (record { machine = waiting_machine known; rest = w })).machine.state
        ≡ first_scan bonded
  unfolding run handle_event dispatch simple_event make_event
  run-scans true known w ready bond started = ground arith
  run-scans false known w ready bond started = ground arith

bond_event_lem : (w : World) → bond_event w ≡ persist_event (Runtime.has_bond w)
bond_event_lem w = elim (Bool-cases (Runtime.has_bond w)) [
  | inl bonded ↦ rw bonded refl
  | inr alone ↦ rw alone refl
]

-- Handed the events that the startup has posted, in their order, the state machine leaves USB ready
-- for the scan that the bonds call for: the known-device scan if there is a bond, and the pairing scan
-- if there is none. Conditions: USB is up and nothing else has been heard of, no event was posted
-- before, the Bluetooth host is ready, the metadata is as the module keeps it, the queue takes events,
-- and the scan can be started.
pub startup_scans :
    (p : Platform) (known : Bool) (w : World)
    → Runtime.is_ready w ≡ true
    → IsVersioned w
    → w.event_thread_started ≡ true
    → QueueTakes p
    → posted p w.calls ≡ []
    → (Manager.execute_command p (first_command (Runtime.has_bond w)) (post_startup_events p w).1).0
      ≡ ok
    → let after = (post_startup_events p w).1 in
      (run
        (firmware p)
        (reverse (posted p after.calls))
        (record { machine = waiting_machine known; rest = after })).machine.state
      ≡ first_scan (Runtime.has_bond w)
unfolding firmware Runtime.has_bond Runtime.is_ready
startup_scans p known w ready versioned started takes fresh scans =
    let exact = post_startup_events-told p w ready versioned started takes in
    let listed = (post_startup_events_lem p w ready versioned started takes).1 in
    let command = rw exact at scans in
    rw (listed, fresh, bond_event_lem w, exact)
      (run-scans (firmware p) (Runtime.has_bond w) known (told w) ready refl command)
