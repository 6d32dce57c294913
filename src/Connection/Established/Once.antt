-- ===== src/Connection/Established/Once.antt =====
-- A connection to a bonded peer in main/src/ble_connection.c: the discovery begins at once, and begins
-- once.
use zmk_usb_bridge.Prelude.{
  ℕ, suc, List, [], ◌≡◌, ◌≢◌, refl, ap, ◌∙◌, true, false, ◌&&◌, ◌∷◌, Option, none, some, arith,
  ◌==◌,
}
use zmk_usb_bridge.Prelude.Int.{pos}
use zmk_usb_bridge.Types.{ok, EventType, Event, Reason}
use zmk_usb_bridge.World.{World, Platform, Call, discover_primary, log, event_put}
use zmk_usb_bridge.Queue.{
  make_event, posted, QueueTakes, post_event_with_payload-taken, posted-taken,
}
use zmk_usb_bridge.Hog.Slots.{discovery_active}
use zmk_usb_bridge.Bridge
use zmk_usb_bridge.Hog.Client
use zmk_usb_bridge.Hog.Client.Reset.{reset-AfterReset}
use zmk_usb_bridge.Hog.Discovery.{start_discovery, start_service_discovery, begin_discovery}
use zmk_usb_bridge.Connection.Established.{
  with_security, connected, active_bonded, secure_or_discover, on_security_ready,
  on_connect_success,
}

abbrev pub security_event : ℕ → Event
security_event conn_handle = make_event EventType.security_ready Reason.none (pos 0) conn_handle 0

abbrev pub success_event : ℕ → Event
success_event conn_handle = make_event EventType.connect_success Reason.none (pos 0) conn_handle 0

security_ready-taken :
    (p : Platform) (conn_handle : ℕ) (w : World)
    → (w.connection.active_conn_handle == conn_handle && w.connection.security_ready) ≡ false
    → w.event_thread_started ≡ true
    → QueueTakes p
    → on_security_ready p conn_handle w
      ≡ start_discovery p w.connection.active_conn conn_handle
          (log (event_put (security_event conn_handle)) (with_security w))
unfolding on_security_ready
security_ready-taken p conn_handle w fresh started takes =
    rw
      (
        fresh,
        post_event_with_payload-taken p EventType.security_ready Reason.none (pos 0) conn_handle 0
            (with_security w) takes started,
      )
      refl

-- The state in which the discovery of a bonded peer begins.
abbrev discovering : ℕ → ℕ → World → World
discovering conn conn_handle w =
    begin_discovery conn conn_handle
      (Client.reset (log (event_put (success_event conn_handle)) (connected conn_handle w))).1

connect_success-taken :
    (p : Platform) (conn conn_handle : ℕ) (w : World)
    → w.connection.active_conn ≡ some conn
    → active_bonded p w.connection.active_conn (connected conn_handle w) ≡ true
    → discovery_active conn_handle w ≡ false
    → w.event_thread_started ≡ true
    → QueueTakes p
    → on_connect_success p conn_handle w
      ≡ start_service_discovery p (discovering conn conn_handle w)
unfolding on_connect_success secure_or_discover start_discovery discovery_active
connect_success-taken p conn conn_handle w held bonded idle started takes =
    rw
      (
        bonded,
        post_event_with_payload-taken p EventType.connect_success Reason.none (pos 0) conn_handle 0
            (connected conn_handle w) takes started,
        held,
        idle,
      )
      refl

still_active :
    (p : Platform) (conn_handle : ℕ) (conn : Option ℕ) (w : World)
    → discovery_active conn_handle w ≡ true
    → conn ≢ none
    → start_discovery p conn conn_handle w ≡ (ok, w)
unfolding start_discovery
still_active p conn_handle none w active held = absurd (held refl)
still_active p conn_handle (some conn) w active held = rw active refl

-- How often the search for the HID service has been begun.
unfoldable pub searches : List Call → ℕ
searches [] = 0
searches (discover_primary conn ∷ calls) = suc (searches calls)
searches (_ ∷ calls) = searches calls

unref-searches :
    (conn : Option ℕ) (w : World) → searches (Client.unref conn w).calls ≡ searches w.calls
unfolding searches
unref-searches none w = refl
unref-searches (some conn) w = refl

reset-searches : (w : World) → searches (Client.reset w).1.calls ≡ searches w.calls
unfolding Client.reset Bridge.set_input_active searches
reset-searches w = unref-searches w.hog.ctx.conn _

-- When the connection to a bonded peer is up, its success is posted, input is off, and the discovery is
-- under way at once. When the link's security is then ready, posting that is all that happens: the
-- client's state is not touched and nothing else is asked of the stack, so over both exactly one search
-- for the HID service is begun. Conditions: there is an active connection, its peer is bonded, no
-- discovery is under way for the handle, and the queue takes events.
pub bonded_discovers_once :
    (p : Platform) (conn conn_handle : ℕ) (w : World)
    → w.connection.active_conn ≡ some conn
    → active_bonded p w.connection.active_conn (connected conn_handle w) ≡ true
    → discovery_active conn_handle w ≡ false
    → w.event_thread_started ≡ true
    → QueueTakes p
    → let up = (on_connect_success p conn_handle w).1 in
      let secure = (on_security_ready p conn_handle up).1 in
      (up.bridge.input_active ≡ false)
      × (discovery_active conn_handle up ≡ true)
      × (secure.hog ≡ up.hog)
      × (secure.calls ≡ event_put (security_event conn_handle) ∷ up.calls)
      × (searches secure.calls ≡ suc (searches w.calls))
      × (posted p secure.calls
          ≡ security_event conn_handle ∷ success_event conn_handle ∷ posted p w.calls)
unfolding start_service_discovery discovery_active posted searches
bonded_discovers_once p conn conn_handle w held bonded idle started takes =
    let u = log (event_put (success_event conn_handle)) (connected conn_handle w) in
    let r = reset-AfterReset p u in
    let up = (start_service_discovery p (discovering conn conn_handle w)).1 in
    let same : (conn_handle == conn_handle) ≡ true = ground arith in
    let insecure : up.connection.security_ready ≡ false = ap (λ c. c.security_ready) r.connection in
    let linked : up.connection.active_conn ≡ some conn =
      ap (λ c. c.active_conn) r.connection ∙ held in
    let fresh : (up.connection.active_conn_handle == conn_handle && up.connection.security_ready)
        ≡ false =
      ground arith in
    let ready =
      security_ready-taken p conn_handle up fresh (r.started ∙ started) takes
      ∙ still_active p conn_handle up.connection.active_conn
          (log (event_put (security_event conn_handle)) (with_security up)) same (λ e. cc) in
    rw (connect_success-taken p conn conn_handle w held bonded idle started takes) (
      rw ready (
        r.closed,
        same,
        refl,
        refl,
        ap suc (
            reset-searches (log (event_put (success_event conn_handle)) (connected conn_handle w))),
        posted-taken p (security_event conn_handle) up.calls takes
            ∙ ap (λ l. security_event conn_handle ∷ l)
                (r.events
                  ∙ posted-taken p (success_event conn_handle) (connected conn_handle w).calls
                      takes),
      ))
