-- ===== src/Manager.antt =====
-- main/src/ble_manager.c, but for the event queue, which is in `Queue`: the commands of the state
-- machine, and the init of the Bluetooth modules.
use zmk_usb_bridge.Prelude.{true, if◌then◌else◌}
use zmk_usb_bridge.Types.{no_memory, is_ok, ok, Command}
use zmk_usb_bridge.World.{World, Platform, Op, ◌>>◌, give, invoke, event_thread_create}
use zmk_usb_bridge.Persist
use zmk_usb_bridge.Reconnect
use zmk_usb_bridge.Runtime
use zmk_usb_bridge.Scan
use zmk_usb_bridge.Connection
use zmk_usb_bridge.PairingFilter
use zmk_usb_bridge.PairingFilter.{Config}
use zmk_usb_bridge.Hog.Client

-- `execute_command`, and the function of the interface that logs and calls it.
unfoldable pub execute_command : Platform → Command → Op World
execute_command p Command.none = give ok
execute_command p Command.start_pairing_scan = Scan.start_pairing p
execute_command p Command.start_known_device_scan = Scan.start_known_device p
execute_command p Command.enter_reconnect_fast = do
  Reconnect.enter_fast_mode
  Scan.start_known_device p
execute_command p Command.enter_reconnect_backoff = do
  Reconnect.enter_backoff_mode
  Scan.start_known_device p
execute_command p Command.stop_scan = Scan.stop p
execute_command p Command.erase_bonds = do Scan.stop p; Runtime.erase_bonds p; Persist.erase_all

unfoldable pub start_scan : Platform → Op World
start_scan p = Scan.start_pairing p

unfoldable pub init_submodules : Platform → Config → Op World
init_submodules p cfg = do
  PairingFilter.init cfg
  Runtime.init p
  Scan.init
  Connection.init
  Reconnect.init
  Client.init p

unfoldable pub init : Platform → Config → Op World
unfolding init_submodules
init p cfg w =
    let (made, after) = invoke p event_thread_create w in
    if w.event_thread_started
    then init_submodules p cfg w
    else if is_ok made
    then init_submodules p cfg (record after { event_thread_started = true })
    else (no_memory, after)
