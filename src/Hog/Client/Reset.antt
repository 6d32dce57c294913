-- ===== src/Hog/Client/Reset.antt =====
-- What a reset of the client in main/src/hog_client.c leaves.
use zmk_usb_bridge.Prelude.{ℕ, ◌≡◌, refl, false, Option, none, some}
use zmk_usb_bridge.World.{World, Platform}
use zmk_usb_bridge.Bridge
use zmk_usb_bridge.Queue.{posted}
use zmk_usb_bridge.Hog.Client.{no_context, unref, reset}

-- What a reset of the client leaves: the connection, the events, and no input.
pub record AfterReset (p : Platform) (w after : World) : Type 0 where
  pub connection : after.connection ≡ w.connection
  pub started : after.event_thread_started ≡ w.event_thread_started
  pub events : posted p after.calls ≡ posted p w.calls
  pub closed : after.bridge.input_active ≡ false

unref-AfterReset :
    (p : Platform) (conn : Option ℕ) (w u : World)
    → AfterReset p w u
    → AfterReset p w (unref conn u)
unfolding posted
unref-AfterReset p none w u r = r
unref-AfterReset p (some conn) w u r = record {
  connection = r.connection;
  started = r.started;
  events = r.events;
  closed = r.closed;
}

pub reset-AfterReset : (p : Platform) (w : World) → AfterReset p w (reset w).1
unfolding reset Bridge.set_input_active posted
reset-AfterReset p w =
    let r =
      unref-AfterReset p w.hog.ctx.conn w _
        (record { connection = refl; started = refl; events = refl; closed = refl }) in
    record { connection = r.connection; started = r.started; events = r.events; closed = r.closed }

pub reset-context : (w : World) → (reset w).1.hog.ctx ≡ no_context
unfolding reset
reset-context w = refl
