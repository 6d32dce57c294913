-- ===== src/Hog/Client/Completion.antt =====
-- The end of a discovery in main/src/hog_client.c.
use zmk_usb_bridge.Prelude.{
  ℕ, ◌≡◌, refl, Bool, true, false, ◌∷◌, Option, none, some, if◌then◌else◌, ◌∙◌,
}
use zmk_usb_bridge.Prelude.Int.{pos}
use zmk_usb_bridge.Types.{Status, ok, not_found, EventType, Event, Reason, Metadata}
use zmk_usb_bridge.World.{World, Platform}
use zmk_usb_bridge.Bridge
use zmk_usb_bridge.Persist
use zmk_usb_bridge.Reconnect
use zmk_usb_bridge.Connection
use zmk_usb_bridge.Queue.{
  post_event_with_payload, make_event, posted, QueueTakes, post_event_with_payload-taken,
  posted-taken,
}
use zmk_usb_bridge.Hog.Slots.{client_ready, capability_flags}
use zmk_usb_bridge.Hog.Client.{
  set_input_active, store_captured, store_current_peer_metadata, end_discovery, complete_discovery,
}

-- What is stored of the peer touches only the metadata.
store_captured-frame :
    (captured : Status × Option Metadata) (w : World)
    → store_captured captured w ≡ record w { persist = (store_captured captured w).persist }
unfolding Persist.store_metadata store_captured
store_captured-frame (status, none) w = refl
store_captured-frame (status, some metadata) w = refl

pub store_frame :
    (p : Platform) (w : World)
    → store_current_peer_metadata p w
      ≡ record w { persist = (store_current_peer_metadata p w).persist }
unfolding store_current_peer_metadata
store_frame p w = store_captured-frame (Connection.capture_metadata p w) w

-- The event that ends a discovery, with a keyboard and without.
abbrev pub end_event : Bool → ℕ → ℕ → Event
end_event ready conn_handle flags = record {
  type = if ready then EventType.hid_ready else EventType.hid_failure;
  status_code = if ready then pos 0 else not_found;
  conn_handle = conn_handle;
  capability_flags = flags;
  reason = if ready then Reason.none else Reason.hid_report_missing;
  reserved = 0;
}

-- The state when the event is posted, if there is a keyboard and if there is none.
abbrev when_ready : Platform → World → World
when_ready p w =
    store_current_peer_metadata p
      (set_input_active true (Reconnect.note_connected (end_discovery w)).1)

abbrev when_missing : World → World
when_missing w = set_input_active false (Reconnect.note_connected (end_discovery w)).1

record Ended (p : Platform) (active : Bool) (w after : World) : Type 0 where
  started : after.event_thread_started ≡ w.event_thread_started
  flags : capability_flags after ≡ capability_flags w
  events : posted p after.calls ≡ posted p w.calls
  closed : after.hog.ctx.discovery_active ≡ false
  input : after.bridge.input_active ≡ active

when_ready-Ended : (p : Platform) (w : World) → Ended p true w (when_ready p w)
unfolding Reconnect.note_connected Bridge.set_input_active posted capability_flags
when_ready-Ended p w =
    rw (store_frame p _)
      (record { started = refl; flags = refl; events = refl; closed = refl; input = refl })

when_missing-Ended : (p : Platform) (w : World) → Ended p false w (when_missing w)
unfolding Reconnect.note_connected Bridge.set_input_active posted capability_flags
when_missing-Ended p w = record {
  started = refl;
  flags = refl;
  events = refl;
  closed = refl;
  input = refl;
}

still_ready :
    (w : World)
    → client_ready (Reconnect.note_connected (end_discovery w)).1 ≡ w.hog.profile.has_keyboard_input
unfolding client_ready Reconnect.note_connected
still_ready w = refl

end_choice :
    (p : Platform) (conn_handle : ℕ) (ready : Bool) (w a b : World)
    → Ended p true w a
    → Ended p false w b
    → w.event_thread_started ≡ true
    → QueueTakes p
    → let (status, after) =
        if ready
        then post_event_with_payload p EventType.hid_ready Reason.none
            (pos 0)
            conn_handle
            (capability_flags a)
            a
        else post_event_with_payload p EventType.hid_failure Reason.hid_report_missing not_found
            conn_handle
            (capability_flags b)
            b in
      (status ≡ ok)
      × (posted p after.calls ≡ end_event ready conn_handle (capability_flags w) ∷ posted p w.calls)
      × (after.bridge.input_active ≡ ready)
      × (after.hog.ctx.discovery_active ≡ false)
unfolding make_event
end_choice p conn_handle true w a b e f started takes =
    rw
      (post_event_with_payload-taken p EventType.hid_ready Reason.none (pos 0) conn_handle
        (capability_flags a) a takes (e.started ∙ started))
      (
        refl,
        posted-taken p (end_event true conn_handle (capability_flags a)) a.calls takes
            ∙ rw (e.flags, e.events) refl,
        e.input,
        e.closed,
      )
end_choice p conn_handle false w a b e f started takes =
    rw
      (post_event_with_payload-taken p EventType.hid_failure Reason.hid_report_missing not_found
        conn_handle (capability_flags b) b takes (f.started ∙ started))
      (
        refl,
        posted-taken p (end_event false conn_handle (capability_flags b)) b.calls takes
            ∙ rw (f.flags, f.events) refl,
        f.input,
        f.closed,
      )

-- The end of a discovery opens the bridge exactly if the keyboard's report was subscribed to. It posts
-- one event, HID_READY if so and HID_FAILURE if not, with the flags of the profile, and the discovery
-- is over. Conditions: the queue takes events.
pub complete_discovery_lem :
    (p : Platform) (conn_handle : ℕ) (w : World)
    → w.event_thread_started ≡ true
    → QueueTakes p
    → let (status, after) = complete_discovery p conn_handle w in
      (status ≡ ok)
      × (posted p after.calls
          ≡ end_event w.hog.profile.has_keyboard_input conn_handle (capability_flags w)
            ∷ posted p w.calls)
      × (after.bridge.input_active ≡ w.hog.profile.has_keyboard_input)
      × (after.hog.ctx.discovery_active ≡ false)
unfolding complete_discovery make_event
complete_discovery_lem p conn_handle w started takes = rw (still_ready w) (
    end_choice p conn_handle w.hog.profile.has_keyboard_input w (when_ready p w) (when_missing w)
      (when_ready-Ended p w) (when_missing-Ended p w) started takes)
