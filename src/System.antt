-- ===== src/System.antt =====
-- The state machine on top of the rest of the firmware: `Services` of `Machine`, filled by the modules
-- that main/src/state_machine.c calls.
pub mod Spares
pub mod Release
use zmk_usb_bridge.Prelude.{ℕ, Bool, true, false, ◌≡◌, refl}
use zmk_usb_bridge.Types.{Status, ok, State, Command, EventType}
use zmk_usb_bridge.World.{World, Platform}
use zmk_usb_bridge.Bridge
use zmk_usb_bridge.Queue
use zmk_usb_bridge.Reconnect
use zmk_usb_bridge.Runtime
use zmk_usb_bridge.Manager
use zmk_usb_bridge.Machine.{Services}
use zmk_usb_bridge.Ui
use zmk_usb_bridge.Ui.Led.{set_state-shows}

unfoldable pub firmware : Platform → Services World
firmware p = record {
  bridge_init = Bridge.init;
  release_all = Bridge.release_all p;
  execute_command = Manager.execute_command p;
  post_simple_event = Queue.post_simple_event p;
  set_ui_state = Ui.set_state;
  is_ready = Runtime.is_ready;
  runtime_has_bond = Runtime.has_bond;
  in_backoff = Reconnect.is_in_backoff_mode;
  set_ui_state-ok = λ s w. (set_state-shows s 0 w).0;
}
