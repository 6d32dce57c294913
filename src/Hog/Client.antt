-- ===== src/Hog/Client.antt =====
-- The life cycle of the client in main/src/hog_client.c: its init and reset, and the two ends of a
-- discovery.
pub mod Completion
pub mod Frame
pub mod Reset
use zmk_usb_bridge.Prelude.{
  ℕ, ◌+◌, ◌≡◌, refl, Bool, true, false, List, [], ◌∷◌, Option, none, some, arith, if◌then◌else◌,
  Bool-cases, ◌∙◌, ap, inl, inr,
}
use zmk_usb_bridge.Prelude.Int.{ℤ, pos}
use zmk_usb_bridge.Types.{
  Status, ok, invalid_argument, no_memory, not_found, is_ok, EventType, Event, Reason, HogProfile,
  MouseResolution, Metadata,
}
use zmk_usb_bridge.World.{
  World, HogState, HogContext, Platform, Call, Op, ◌>>◌, give, effect, ignoring, log, invoke,
  input_purge, input_thread_create, conn_unref, event_put,
}
use zmk_usb_bridge.Bridge
use zmk_usb_bridge.Persist
use zmk_usb_bridge.Reconnect
use zmk_usb_bridge.Connection
use zmk_usb_bridge.Queue.{
  post_event_with_payload, make_event, posted, QueueTakes, post_event_with_payload-taken,
  posted-taken,
}
use zmk_usb_bridge.Hog.Slots.{client_ready, capability_flags, with_ctx}

abbrev pub no_profile : HogProfile
no_profile = record {
  has_keyboard_input = false;
  has_consumer_input = false;
  has_mouse_input = false;
  has_mouse_feature = false;
  has_led_output = false;
}

abbrev pub no_context : HogContext
no_context = record {
  discovery_active = false;
  finalize_pending = false;
  conn_handle = 0;
  service_start_handle = 0;
  service_end_handle = 0;
  report_count = 0;
  current_report_index = 0;
  pending_subscriptions = 0;
  conn = none;
  reports = [];
}

abbrev pub set_input_active : Bool → World → World
set_input_active active w = (Bridge.set_input_active active w).1

-- The static variables zeroed, but for the context.
abbrev forget : World → World
forget w = record w {
  hog = record (w.hog) {
    profile = no_profile;
    mouse_resolution = record { wheel = 0; hor_wheel = 0 };
    mouse_resolution_from_host = false;
  };
}

unfoldable pub init : Platform → Op World
init p w =
    let idle = set_input_active false (with_ctx (λ c. no_context) (forget w)) in
    let (made, after) = invoke p input_thread_create idle in
    if w.hog.input_thread_started
    then (ok, idle)
    else if is_ok made
    then (ok, record after { hog = record (after.hog) { input_thread_started = true } })
    else (no_memory, after)

abbrev pub unref : Option ℕ → World → World
unref none w = w
unref (some conn) w = log (conn_unref conn) w

unfoldable pub reset : Op World
reset w =
    let idle = log input_purge (set_input_active false (forget w)) in
    (ok, with_ctx (λ c. no_context) (unref w.hog.ctx.conn idle))

unfoldable pub set_profile : Option HogProfile → Op World
set_profile none w = (invalid_argument, w)
set_profile (some next) w = (ok, record w { hog = record (w.hog) { profile = next } })

unfoldable pub store_captured : Status × Option Metadata → World → World
store_captured (status, none) w = w
store_captured (status, some metadata) w = (Persist.store_metadata (some metadata) w).1

unfoldable pub store_current_peer_metadata : Platform → World → World
unfolding store_captured
store_current_peer_metadata p w = store_captured (Connection.capture_metadata p w) w

abbrev pub end_discovery : World → World
end_discovery w = with_ctx (λ c. record c { discovery_active = false }) w

unfoldable pub complete_discovery : Platform → ℕ → Op World
complete_discovery p conn_handle w =
    let noted = (Reconnect.note_connected (end_discovery w)).1 in
    let closed = set_input_active false noted in
    let opened = store_current_peer_metadata p (set_input_active true noted) in
    if client_ready noted
    then post_event_with_payload p EventType.hid_ready Reason.none (pos 0) conn_handle
        (capability_flags opened) opened
    else post_event_with_payload p EventType.hid_failure Reason.hid_report_missing not_found
        conn_handle (capability_flags closed) closed

unfoldable pub fail_discovery : Platform → ℕ → Reason → ℤ → Op World
fail_discovery p conn_handle reason status_code w =
    let noted = (Reconnect.note_failure (end_discovery w)).1 in
    let cut = (Connection.disconnect_active p Connection.remote_user_term_conn noted).1 in
    post_event_with_payload p EventType.hid_failure reason status_code conn_handle
      (capability_flags cut) cut
