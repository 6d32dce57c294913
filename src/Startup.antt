-- ===== src/Startup.antt =====
-- main/src/startup.c: the order in which the modules are brought up, and the events that tell the state
-- machine what was found. The state is the state machine's on top of the rest of the firmware.
pub mod Posts
pub mod Scans
use zmk_usb_bridge.Prelude.{ℕ, Bool, true, false, not, Option, none, some, ◌==◌, if◌then◌else◌}
use zmk_usb_bridge.Prelude.Int.{pos, negsuc}
use zmk_usb_bridge.Types.{Status, ok, invalid_state, is_ok, EventType, Reason}
use zmk_usb_bridge.World.{World, Platform, Op, ◌>>◌}
use zmk_usb_bridge.PairingFilter.{Config}
use zmk_usb_bridge.Persist
use zmk_usb_bridge.Persist.{empty_metadata}
use zmk_usb_bridge.Queue.{post_simple_event, post_event_with_payload}
use zmk_usb_bridge.Runtime
use zmk_usb_bridge.Manager
use zmk_usb_bridge.Usb
use zmk_usb_bridge.Ui
use zmk_usb_bridge.Machine
use zmk_usb_bridge.Machine.{Sys}
use zmk_usb_bridge.System.{firmware}

-- What a load of the metadata says of it: it can be used or is not there, or there is a fault. A size
-- mismatch is a version that is not supported.
unfoldable pub metadata_fault : Status → Option Reason
metadata_fault (pos n) = if n == 0 then none else some Reason.metadata_corrupted
metadata_fault (negsuc n) =
    if n == 2
    then none
    else if n == 5
    then some Reason.metadata_version_mismatch
    else some Reason.metadata_corrupted

-- A fault is mended first.
discard_faulty : Option Reason → Op World
discard_faulty none w = (ok, w)
discard_faulty (some reason) w = Persist.discard_metadata w

post_fault : Platform → Option Reason → Op World
post_fault p none w = (ok, w)
post_fault p (some reason) w =
    post_event_with_payload p EventType.metadata_fault reason (pos 0) 0 0 w

abbrev pub bond_event : World → EventType
bond_event w =
    if Runtime.has_bond w
    then EventType.persist_ready_with_bond
    else EventType.persist_ready_no_bond

post_all : Platform → Option Reason → Op World
unfolding discard_faulty post_fault
post_all p fault = do
  discard_faulty fault
  post_simple_event p EventType.ble_synced
  (λ w. post_simple_event p (bond_event w) w)
  post_fault p fault

unfoldable pub post_startup_events : Platform → Op World
unfolding post_all metadata_fault
post_startup_events p w =
    if not (Runtime.is_ready w)
    then (invalid_state, w)
    else post_all p (metadata_fault (Persist.load_metadata (some empty_metadata) w).0) w

-- `if (!check_status(step, m())) return ZMK_USB_BRIDGE_STATUS_INVALID_STATE;`.
abbrev pub checked : {S : Type 0} → Op S → Op S
checked m s = let (status, t) = m s in (if is_ok status then ok else invalid_state, t)

-- A step of a module other than the state machine.
abbrev pub below : Op World → Op (Sys World)
below m s = let (status, w) = m s.rest in (status, record s { rest = w })

unfoldable pub startup_run : Platform → Config → Op (Sys World)
unfolding post_startup_events
startup_run p cfg = do
  checked (below Persist.init)
  checked (below (Ui.init p))
  checked (below (Usb.init p))
  checked (Machine.init (firmware p))
  checked (below (Manager.init p cfg))
  checked (below Ui.enable_inputs)
  checked (Machine.start (firmware p))
  checked (below (post_startup_events p))
