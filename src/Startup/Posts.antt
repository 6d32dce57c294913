-- ===== src/Startup/Posts.antt =====
-- What main/src/startup.c tells the state machine.
use zmk_usb_bridge.Prelude.{◌≡◌, refl, ap, ◌∙◌, arith, inl, inr, true, ◌∷◌, none, some}
use zmk_usb_bridge.Prelude.Int.{pos}
use zmk_usb_bridge.Types.{ok, EventType, Event, Reason}
use zmk_usb_bridge.World.{World, Platform, log, event_put}
use zmk_usb_bridge.Persist
use zmk_usb_bridge.Persist.{IsVersioned, empty_metadata}
use zmk_usb_bridge.Queue.{post_simple_event, make_event, posted, QueueTakes, posted-taken}
use zmk_usb_bridge.Runtime
use zmk_usb_bridge.Startup.{metadata_fault, bond_event, post_startup_events}

unfoldable pub simple_event : EventType → Event
simple_event type = make_event type Reason.none (pos 0) 0 0

-- Metadata that the module stored itself is never faulty.
no_fault :
    (w : World)
    → IsVersioned w
    → metadata_fault (Persist.load_metadata (some empty_metadata) w).0 ≡ none
unfolding metadata_fault Persist.load_metadata IsVersioned
no_fault w (inl absent) = rw absent refl
no_fault w (inr current) = rw current (ground arith)

post_simple-taken :
    (p : Platform) (type : EventType) (w : World)
    → QueueTakes p
    → w.event_thread_started ≡ true
    → post_simple_event p type w ≡ (ok, log (event_put (simple_event type)) w)
unfolding post_simple_event simple_event
post_simple-taken p type w takes started = rw (started, takes (simple_event type) w.calls) refl

-- The state once the two events are posted.
abbrev pub told : World → World
told w =
    log (event_put (simple_event (bond_event w)))
      (log (event_put (simple_event EventType.ble_synced)) w)

pub post_startup_events-told :
    (p : Platform) (w : World)
    → Runtime.is_ready w ≡ true
    → IsVersioned w
    → w.event_thread_started ≡ true
    → QueueTakes p
    → post_startup_events p w ≡ (ok, told w)
unfolding post_startup_events Runtime.has_bond
post_startup_events-told p w ready versioned started takes =
    let synced = log (event_put (simple_event EventType.ble_synced)) w in
    rw
      (
        ready,
        no_fault w versioned,
        post_simple-taken p EventType.ble_synced w takes started,
        post_simple-taken p (bond_event synced) synced takes started,
      )
      refl

-- Startup tells the state machine that Bluetooth is up and then whether there is a bond, in this order
-- and nothing else; a metadata fault is not reported. Conditions: the Bluetooth host is ready, the
-- metadata is as the module keeps it, and the queue takes events.
pub post_startup_events_lem :
    (p : Platform) (w : World)
    → Runtime.is_ready w ≡ true
    → IsVersioned w
    → w.event_thread_started ≡ true
    → QueueTakes p
    → let (status, after) = post_startup_events p w in
      (status ≡ ok)
      × (posted p after.calls
          ≡ simple_event (bond_event w) ∷ simple_event EventType.ble_synced ∷ posted p w.calls)
unfolding Runtime.has_bond
post_startup_events_lem p w ready versioned started takes =
    let synced = log (event_put (simple_event EventType.ble_synced)) w in
    rw (post_startup_events-told p w ready versioned started takes) (
      refl,
      posted-taken p (simple_event (bond_event w)) synced.calls takes
          ∙ ap (λ l. simple_event (bond_event w) ∷ l)
              (posted-taken p (simple_event EventType.ble_synced) w.calls takes),
    )
