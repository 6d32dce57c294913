-- ===== src/Hog/Reads.antt =====
-- The callbacks of the GATT reads and subscriptions in main/src/hog_client.c, and all callbacks of the
-- client as one type of steps.
pub mod Valid
pub mod Steps
pub mod Invariant
pub mod Answers
pub mod Idle
pub mod Run
pub mod Ending
pub mod Twice
use zmk_usb_bridge.Prelude.{
  ℕ, ◌-◌, Bool, true, false, not, ◌&&◌, ◌||◌, List, [], ◌∷◌, Option, none, some, ◌==◌, ltb, length,
  get_or, if◌then◌else◌,
}
use zmk_usb_bridge.Prelude.Int.{ℤ, pos}
use zmk_usb_bridge.Types.{Status, is_ok, Role, Reason, MouseResolution}
use zmk_usb_bridge.World.{World, Platform, Op, ReportSlot, ReportBinding, HogContext}
use zmk_usb_bridge.Hog.Mouse.{decode_mouse_feature_payload, resolution_max}
use zmk_usb_bridge.Hog.Slots.{
  with_ctx, same_role, conn_matches, current_report_slot, update_slot, set_profile_capability,
  set_mouse_resolution, role_from_report_ref, find_slot_by_subscribe_params,
}
use zmk_usb_bridge.Hog.Feature.{write_mouse_feature_to_peer}
use zmk_usb_bridge.Hog.Client
use zmk_usb_bridge.Hog.Subscribe.{finalize_subscription_phase, start_subscriptions, is_keyboard}
use zmk_usb_bridge.Hog.Discovery.{advance_after_report_ref, start_discovery}
use zmk_usb_bridge.Hog.Callbacks.{
  iter_stop, Service, Characteristic, Descriptor, on_hids_service_discovered,
  on_report_characteristic_discovered, on_report_descriptor_discovered,
}

-- A decoded feature is taken unless the host has set one, which is written to the peer instead.
unfoldable pub take_feature : Status × Option MouseResolution → World → World
take_feature (status, none) w = w
take_feature (status, some resolution) w =
    if w.hog.mouse_resolution_from_host
    then write_mouse_feature_to_peer w
    else set_mouse_resolution resolution.wheel resolution.hor_wheel w

unfoldable pub on_mouse_feature_read : Platform → ℕ → ℕ → Option (List ℕ) → World → Bool × World
unfolding take_feature
on_mouse_feature_read p conn err none w = (iter_stop, w)
on_mouse_feature_read p conn err (some payload) w = (
  iter_stop,
  if not (conn_matches conn w)
      then w
      else if not (err == 0)
      then (start_subscriptions p w).1
      else (start_subscriptions p
          (take_feature (decode_mouse_feature_payload payload (length payload)) w)).1,
)

abbrev pub drop_subscription : World → World
drop_subscription w =
    with_ctx (λ c. record c { pending_subscriptions = c.pending_subscriptions - 1 }) w

-- The subscription of the slot `i` has been written, or has failed.
unfoldable pub subscription_ended : Platform → ℕ → ReportSlot → ℕ → World → World
subscription_ended p i slot err w =
    let counted = drop_subscription w in
    let noted = set_profile_capability slot.binding.role true (
      update_slot i (λ s. record s { binding = record (s.binding) { subscribed = true } })
        counted) in
    if err == 0
    then finalize_subscription_phase p noted
    else if is_keyboard slot
    then (Client.fail_discovery p w.hog.ctx.conn_handle Reason.hid_subscribe_failed (pos err)
        counted).1
    else finalize_subscription_phase p counted

unfoldable pub subscribed_slot : Platform → ℕ → Option ReportSlot → ℕ → World → World
unfolding subscription_ended
subscribed_slot p i none err w = w
subscribed_slot p i (some slot) err w = subscription_ended p i slot err w

unfoldable pub on_report_subscribed : Platform → ℕ → ℕ → ℕ → World → World
unfolding subscribed_slot
on_report_subscribed p conn err i w =
    if conn_matches conn w
    then subscribed_slot p i (find_slot_by_subscribe_params (some i) w) err w
    else w

-- What a report reference's two bytes make of the report's slot.
unfoldable pub identify : ℕ → ℕ → ReportSlot → ReportSlot
identify report_id report_type s = record s {
  binding = record (s.binding) {
    report_id = report_id;
    report_type = report_type;
    role = role_from_report_ref report_id report_type;
  };
}

unfoldable pub note_role : Role → World → World
note_role role w =
    let known =
      if same_role role Role.led_output || same_role role Role.mouse_feature
      then set_profile_capability role true w
      else w in
    if same_role role Role.mouse_feature && not w.hog.mouse_resolution_from_host
    then set_mouse_resolution resolution_max resolution_max known
    else known

unfoldable pub take_reference : ℕ → ℕ → World → World
unfolding identify note_role
take_reference report_id report_type w =
    note_role (role_from_report_ref report_id report_type)
      (update_slot w.hog.ctx.current_report_index (identify report_id report_type) w)

unfoldable pub reference_read : Platform → Option ReportSlot → ℕ → Option (List ℕ) → World → World
unfolding take_reference
reference_read p none err payload w = w
reference_read p (some slot) err none w = w
reference_read p (some slot) err (some payload) w =
    if not (err == 0) || ltb (length payload) 2
    then (advance_after_report_ref p w).1
    else (advance_after_report_ref p (take_reference (get_or payload 0 0) (get_or payload 1 0) w)).1

unfoldable pub on_report_ref_read : Platform → ℕ → ℕ → Option (List ℕ) → World → Bool × World
unfolding reference_read
on_report_ref_read p conn err payload w = (
  iter_stop,
  if conn_matches conn w then reference_read p (current_report_slot w) err payload w else w,
)

-- What the Bluetooth host calls of the client during a discovery.
pub data Callback : Type 0 where
  started : Option ℕ → ℕ → Callback
  service : ℕ → Option Service → Callback
  characteristic : ℕ → Option Characteristic → Callback
  descriptor : ℕ → Option Descriptor → Callback
  reference : (conn err : ℕ) → Option (List ℕ) → Callback
  feature : (conn err : ℕ) → Option (List ℕ) → Callback
  subscribed : (conn err slot : ℕ) → Callback

abbrev pub callback : Platform → Callback → World → World
callback p (Callback.started conn conn_handle) w = (start_discovery p conn conn_handle w).1
callback p (Callback.service conn attr) w = (on_hids_service_discovered p conn attr w).1
callback p (Callback.characteristic conn attr) w =
    (on_report_characteristic_discovered p conn attr w).1
callback p (Callback.descriptor conn attr) w = (on_report_descriptor_discovered p conn attr w).1
callback p (Callback.reference conn err payload) w = (on_report_ref_read p conn err payload w).1
callback p (Callback.feature conn err payload) w = (on_mouse_feature_read p conn err payload w).1
callback p (Callback.subscribed conn err slot) w = on_report_subscribed p conn err slot w

abbrev pub callbacks : Platform → List Callback → World → World
callbacks p [] w = w
callbacks p (c ∷ cs) w = callbacks p cs (callback p c w)
