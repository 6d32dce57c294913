-- ===== src/Connection/Ended.antt =====
-- What is left of a connection in main/src/ble_connection.c once it has ended.
use zmk_usb_bridge.Prelude.{
  ℕ, ◌≡◌, refl, ap, ◌∙◌, Bool, true, false, ◌∷◌, Option, none, some, ◌==◌, if◌then◌else◌,
}
use zmk_usb_bridge.Prelude.Int.{ℤ}
use zmk_usb_bridge.Types.{ok, EventType, Reason}
use zmk_usb_bridge.World.{World, Platform}
use zmk_usb_bridge.Queue.{
  make_event, posted, QueueTakes, post_event_with_payload-taken, posted-taken,
}
use zmk_usb_bridge.Hog.Client
use zmk_usb_bridge.Hog.Client.{no_context}
use zmk_usb_bridge.Hog.Client.Reset.{reset-AfterReset, reset-context}
use zmk_usb_bridge.Connection.{clear_connect_attempt_timeout, is_busy}
use zmk_usb_bridge.Connection.Events.{closed, unref_active, on_disconnected}

-- A state in which no connection is left.
record Closed (p : Platform) (w after : World) : Type 0 where
  started : after.event_thread_started ≡ w.event_thread_started
  events : posted p after.calls ≡ posted p w.calls
  input : after.bridge.input_active ≡ false
  context : after.hog.ctx ≡ no_context
  idle : is_busy after ≡ false
  insecure : after.connection.security_ready ≡ false

-- The same, before the connection is given up.
record Resetted (p : Platform) (w u : World) : Type 0 where
  started : u.event_thread_started ≡ w.event_thread_started
  events : posted p u.calls ≡ posted p w.calls
  input : u.bridge.input_active ≡ false
  context : u.hog.ctx ≡ no_context
  insecure : u.connection.security_ready ≡ false

given_up :
    (p : Platform) (conn : Option ℕ) (w u : World)
    → u.connection.active_conn ≡ conn
    → Resetted p w u
    → Closed p w (unref_active conn u)
unfolding is_busy posted
given_up p none w u held r = record {
  started = r.started;
  events = r.events;
  input = r.input;
  context = r.context;
  idle = rw held refl;
  insecure = r.insecure;
}
given_up p (some conn) w u held r = record {
  started = r.started;
  events = r.events;
  input = r.input;
  context = r.context;
  idle = refl;
  insecure = r.insecure;
}

abbrev without_handle : World → World
without_handle u = record u { connection = record (u.connection) { active_conn_handle = 0 } }

handle_cleared :
    (p : Platform) (b : Bool) (w u : World)
    → Closed p w u
    → Closed p w (if b then without_handle u else u)
unfolding is_busy
handle_cleared p true w u c = record {
  started = c.started;
  events = c.events;
  input = c.input;
  context = c.context;
  idle = c.idle;
  insecure = c.insecure;
}
handle_cleared p false w u c = c

abbrev insecure : World → World
insecure w =
    let reset = (Client.reset (clear_connect_attempt_timeout w)).1 in
    record reset { connection = record (reset.connection) { security_ready = false } }

insecure-Resetted : (p : Platform) (w : World) → Resetted p w (insecure w)
unfolding posted
insecure-Resetted p w =
    let r = reset-AfterReset p (clear_connect_attempt_timeout w) in
    record {
      started = r.started;
      events = r.events;
      input = r.closed;
      context = reset-context (clear_connect_attempt_timeout w);
      insecure = refl;
    }

closed-Closed : (p : Platform) (conn_handle : ℕ) (w : World) → Closed p w (closed conn_handle w)
unfolding closed
closed-Closed p conn_handle w =
    let u = insecure w in
    let alone = unref_active u.connection.active_conn u in
    handle_cleared p (alone.connection.active_conn_handle == conn_handle) w alone
      (given_up p u.connection.active_conn w u refl (insecure-Resetted p w))

-- When a connection has ended, one event is posted, with the reason that was given, and nothing is left
-- of it: input is off, the client's context is empty, the link is not secure, and there is no active
-- connection, so the next attempt may begin. Conditions: the queue takes events.
pub on_disconnected_lem :
    (p : Platform) (conn_handle : ℕ) (reason : Reason) (status_code : ℤ) (w : World)
    → w.event_thread_started ≡ true
    → QueueTakes p
    → let (status, after) = on_disconnected p conn_handle reason status_code w in
      (status ≡ ok)
      × (posted p after.calls
          ≡ make_event EventType.disconnected reason status_code conn_handle 0 ∷ posted p w.calls)
      × (after.bridge.input_active ≡ false)
      × (after.hog.ctx ≡ no_context)
      × (is_busy after ≡ false)
      × (after.connection.security_ready ≡ false)
unfolding on_disconnected is_busy
on_disconnected_lem p conn_handle reason status_code w started takes =
    let c = closed-Closed p conn_handle w in
    let after = closed conn_handle w in
    let event = make_event EventType.disconnected reason status_code conn_handle 0 in
    rw
      (post_event_with_payload-taken p EventType.disconnected reason status_code conn_handle 0 after
        takes (c.started ∙ started))
      (
        refl,
        posted-taken p event after.calls takes ∙ ap (λ l. event ∷ l) c.events,
        c.input,
        c.context,
        c.idle,
        c.insecure,
      )
