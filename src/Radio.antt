-- ===== src/Radio.antt =====
-- What reaches main/src/ble_connection.c and main/src/hog_client.c from outside, as one type of steps:
-- the callbacks of the Bluetooth stack, the timer of the attempt, and the calls of the firmware's other
-- modules. A notification carries its payload: that a subscription has ended, which the stack tells
-- with no payload, is not one of the steps.
pub mod Sound
use zmk_usb_bridge.Prelude.{ℕ, List, [], ◌∷◌, Option, some}
use zmk_usb_bridge.Types.{Addr}
use zmk_usb_bridge.World.{World, Platform}
use zmk_usb_bridge.Hog.Client
use zmk_usb_bridge.Hog.Input.{on_report_notify}
use zmk_usb_bridge.Hog.Reads.{Callback, callback}
use zmk_usb_bridge.Connection.{connect_peer, disconnect_active, connect_timeout_work_handler}
use zmk_usb_bridge.Connection.Events.{disconnected_cb}
use zmk_usb_bridge.Connection.Established.{connected_cb, security_changed_cb}

pub data Step : Type 0 where
  link_up : Option ℕ → (err : ℕ) → Step
  link_secured : Option ℕ → (err : ℕ) → Step
  link_down : Option ℕ → (reason : ℕ) → Step
  attempt_over : Step
  client_called : Callback → Step
  notified : (conn : ℕ) → Option ℕ → List ℕ → Step
  connect_asked : Option Addr → Step
  disconnect_asked : (reason : ℕ) → Step
  reset_asked : Step

abbrev pub step : Platform → Step → World → World
step p (Step.link_up conn err) w = connected_cb p conn err w
step p (Step.link_secured conn err) w = security_changed_cb p conn err w
step p (Step.link_down conn reason) w = disconnected_cb p conn reason w
step p Step.attempt_over w = connect_timeout_work_handler p w
step p (Step.client_called c) w = callback p c w
step p (Step.notified conn slot payload) w = (on_report_notify p conn slot (some payload) w).1
step p (Step.connect_asked addr) w = (connect_peer p addr w).1
step p (Step.disconnect_asked reason) w = (disconnect_active p reason w).1
step p Step.reset_asked w = (Client.reset w).1

abbrev pub run : Platform → List Step → World → World
run p [] w = w
run p (s ∷ steps) w = run p steps (step p s w)
