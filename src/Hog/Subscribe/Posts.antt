-- ===== src/Hog/Subscribe/Posts.antt =====
-- The events that the ends of a discovery in main/src/hog_client.c post.
use zmk_usb_bridge.Prelude.{
  ℕ, ◌≡◌, refl, ap, List, map, ◌∙◌, inl, inr, Bool, true, false, if◌then◌else◌, ◌∷◌, arith,
  Option-cases,
}
use zmk_usb_bridge.Prelude.Int.{ℤ}
use zmk_usb_bridge.Types.{not_found, EventType, Event, Reason}
use zmk_usb_bridge.World.{World, Platform}
use zmk_usb_bridge.Reconnect
use zmk_usb_bridge.Connection
use zmk_usb_bridge.Queue.{
  make_event, posted, QueueTakes, post_event_with_payload-taken, posted-taken,
}
use zmk_usb_bridge.Hog.Slots.{capability_flags}
use zmk_usb_bridge.Hog.Client
use zmk_usb_bridge.Hog.Client.Completion.{complete_discovery_lem}
use zmk_usb_bridge.Hog.Subscribe.Once.{pick-true, pick-false, ended, marked}

abbrev pub types : List Event → List EventType
types events = map (λ (e : Event). e.type) events

-- What comes before the event of a failure posts nothing, and leaves the profile.
record Quiet (p : Platform) (w after : World) : Type 0 where
  events : posted p after.calls ≡ posted p w.calls
  started : after.event_thread_started ≡ w.event_thread_started
  flags : capability_flags after ≡ capability_flags w

note_failure-Quiet : (p : Platform) (w : World) → Quiet p w (Reconnect.note_failure w).1
unfolding Reconnect.note_failure posted capability_flags
note_failure-Quiet p w = ground arith

disconnect_active-Quiet :
    (p : Platform) (reason : ℕ) (w : World) → Quiet p w (Connection.disconnect_active p reason w).1
unfolding Connection.disconnect_active posted capability_flags
disconnect_active-Quiet p reason w = elim (Option-cases w.connection.active_conn) [
  | inl absent ↦ rw absent (record { events = refl; started = refl; flags = refl })
  | inr (conn, held) ↦ rw held (record { events = refl; started = refl; flags = refl })
]

-- A failure posts its event, and the event thread goes on.
pub fail-posted :
    (p : Platform) (conn : ℕ) (reason : Reason) (code : ℤ) (w : World)
    → w.event_thread_started ≡ true
    → QueueTakes p
    → let after = (Client.fail_discovery p conn reason code w).1 in
      (types (posted p after.calls) ≡ EventType.hid_failure ∷ types (posted p w.calls))
      × (after.event_thread_started ≡ true)
unfolding Client.fail_discovery make_event
fail-posted p conn reason code w started takes =
    let noted_failure = (Reconnect.note_failure (Client.end_discovery w)).1 in
    let cut = (Connection.disconnect_active p Connection.remote_user_term_conn noted_failure).1 in
    let a = note_failure-Quiet p (Client.end_discovery w) in
    let b = disconnect_active-Quiet p Connection.remote_user_term_conn noted_failure in
    let running = b.started ∙ a.started ∙ started in
    let event = make_event EventType.hid_failure reason code conn (capability_flags cut) in
    rw
      (post_event_with_payload-taken p EventType.hid_failure reason code conn (capability_flags cut)
        cut takes running)
      (ap types (posted-taken p event cut.calls takes) ∙ rw (b.events, a.events) refl, running)

-- The event that ends a discovery, with a keyboard and without.
abbrev pub end_type : Bool → EventType
end_type ready = if ready then EventType.hid_ready else EventType.hid_failure

-- What the end of the phase does, by whether there is a keyboard.
pub ended-posted :
    (p : Platform) (keyboard : Bool) (w : World)
    → w.hog.profile.has_keyboard_input ≡ keyboard
    → w.event_thread_started ≡ true
    → QueueTakes p
    → (types (posted p (ended p w).calls) ≡ end_type keyboard ∷ types (posted p w.calls))
      × (keyboard ≡ true → (ended p w).bridge.input_active ≡ true)
ended-posted p true w e started takes =
    let lem = complete_discovery_lem p w.hog.ctx.conn_handle (marked w) started takes in
    let failing =
      Client.fail_discovery p w.hog.ctx.conn_handle Reason.hid_subscribe_failed not_found
        (marked w) in
    let same =
      pick-true w.hog.profile.has_keyboard_input
        (Client.complete_discovery p w.hog.ctx.conn_handle (marked w)).1 failing.1 e in
    rw same (ap types lem.1 ∙ rw e refl, λ k. lem.2 ∙ e)
ended-posted p false w e started takes =
    let completed = Client.complete_discovery p w.hog.ctx.conn_handle (marked w) in
    let failing =
      Client.fail_discovery p w.hog.ctx.conn_handle Reason.hid_subscribe_failed not_found
        (marked w) in
    let same = pick-false w.hog.profile.has_keyboard_input completed.1 failing.1 e in
    rw same (
      (fail-posted p w.hog.ctx.conn_handle Reason.hid_subscribe_failed not_found (marked w) started
          takes).0,
      λ k. cc,
    )
