-- ===== src/Hog/Callbacks.antt =====
-- The callbacks of the GATT client in main/src/hog_client.c. Each returns whether the procedure that
-- called it goes on (`BT_GATT_ITER_CONTINUE`). An attribute is a pointer, NULL at the end of a
-- procedure, and so is the data of a read.
pub mod Collect
pub mod Overflow
pub mod Refusal
use zmk_usb_bridge.Prelude.{
  ℕ, zero, suc, ◌+◌, ◌-◌, ◌%◌, ◌<◌, Bool, true, false, not, ◌&&◌, ◌||◌, List, [], ◌∷◌, ◌++◌, Option,
  none, some, ◌==◌, ltb, leb, length, get_or, get_elem?, if◌then◌else◌,
}
use zmk_usb_bridge.Prelude.Int.{ℤ, pos}
use zmk_usb_bridge.Types.{
  Status, ok, invalid_state, not_found, is_ok, Role, Reason, MouseResolution,
}
use zmk_usb_bridge.World.{World, Platform, Op, ReportSlot, ReportBinding, HogContext}
use zmk_usb_bridge.Hog.Mouse.{decode_mouse_feature_payload, resolution_max}
use zmk_usb_bridge.Hog.Slots.{
  with_ctx, conn_matches, current_report_slot, update_slot, set_profile_capability,
  set_mouse_resolution, role_from_report_ref, find_slot_by_subscribe_params,
}
use zmk_usb_bridge.Hog.Feature.{write_mouse_feature_to_peer}
use zmk_usb_bridge.Hog.Client
use zmk_usb_bridge.Hog.Subscribe.{finalize_subscription_phase, start_subscriptions, is_keyboard}
use zmk_usb_bridge.Hog.Discovery.{
  start_report_discovery, start_descriptor_discovery, start_report_ref_read,
  advance_after_report_ref, at_index,
}

abbrev pub iter_stop : Bool
iter_stop = false

abbrev pub iter_continue : Bool
iter_continue = true

-- `if (m() != OK) (void) fail_discovery(conn_handle, reason, status_code);`.
unfoldable pub or_fail : Platform → Reason → Op World → World → World
or_fail p reason m w =
    let (status, after) = m w in
    if is_ok status
    then after
    else (Client.fail_discovery p after.hog.ctx.conn_handle reason invalid_state after).1

-- A primary service: its declaration's handle and its last handle.
pub record Service : Type 0 where
  pub handle : ℕ
  pub end_handle : ℕ

unfoldable pub on_hids_service_discovered : Platform → ℕ → Option Service → World → Bool × World
unfolding or_fail
on_hids_service_discovered p conn none w = (
  iter_stop,
  if conn_matches conn w
      then (Client.fail_discovery p w.hog.ctx.conn_handle Reason.hid_service_missing not_found w).1
      else w,
)
on_hids_service_discovered p conn (some service) w = (
  iter_stop,
  if conn_matches conn w
      then or_fail p Reason.hid_service_missing (start_report_discovery p) (
          with_ctx
            (λ c. record c {
              service_start_handle = service.handle;
              service_end_handle = service.end_handle;
            })
            w)
      else w,
)

-- A characteristic: the handles of its declaration and value, its properties, and whether its UUID
-- is that of a HID report.
pub record Characteristic : Type 0 where
  pub handle : ℕ
  pub value_handle : ℕ
  pub properties : ℕ
  pub is_report : Bool

abbrev pub max_reports : ℕ
max_reports = 8

-- `handle - 1U` in 16 bits.
abbrev pub previous_handle : ℕ → ℕ
previous_handle handle = (handle + 65535) % 65536

-- The write to the `end_handle` of the last of the reports.
unfoldable pub set_last_end : ℕ → List ReportSlot → List ReportSlot
set_last_end end_handle [] = []
set_last_end end_handle (s ∷ []) = record s { end_handle = end_handle } ∷ []
set_last_end end_handle (s ∷ t ∷ slots) = s ∷ set_last_end end_handle (t ∷ slots)

unfoldable pub new_slot : ℕ → Characteristic → ReportSlot
new_slot service_end c = record {
  in_use = true;
  properties = c.properties;
  report_ref_handle = 0;
  end_handle = service_end;
  binding = record {
    value_handle = c.value_handle;
    ccc_handle = 0;
    report_id = 0;
    report_type = 0;
    role = Role.unknown;
    subscribed = false;
  };
}

abbrev pub with_reports : (List ReportSlot → List ReportSlot) → World → World
with_reports f w = with_ctx (λ c. record c { reports = f c.reports }) w

-- The report's slot is added: the array's next element is filled and `report_count` is one more.
abbrev pub add_report : Characteristic → World → World
add_report c w =
    with_ctx
      (λ x. record x {
        reports = x.reports ++ (new_slot x.service_end_handle c ∷ []);
        report_count = suc x.report_count;
      })
      w

unfoldable pub start_descriptors : Platform → World → World
unfolding or_fail
start_descriptors p w =
    or_fail p Reason.hid_report_missing (start_descriptor_discovery p 0) (at_index 0 w)

-- A characteristic is entered, the array of the reports not being full.
unfoldable pub enter_characteristic : Characteristic → World → World
unfolding set_last_end new_slot
enter_characteristic c w =
    let bounded = with_reports (set_last_end (previous_handle c.handle)) w in
    if c.is_report then add_report c bounded else bounded

unfoldable pub on_report_characteristic_discovered :
    Platform → ℕ → Option Characteristic → World → Bool × World
unfolding start_descriptors enter_characteristic
on_report_characteristic_discovered p conn none w = (
  iter_stop,
  if conn_matches conn w
      then if w.hog.ctx.report_count == 0
        then (Client.fail_discovery p w.hog.ctx.conn_handle Reason.hid_report_missing not_found w).1
        else start_descriptors p w
      else w,
)
on_report_characteristic_discovered p conn (some c) w =
    let entered = enter_characteristic c w in
    let is_last = leb w.hog.ctx.service_end_handle c.value_handle in
    if not (conn_matches conn w) || leb max_reports w.hog.ctx.report_count
    then (iter_stop, w)
    else if is_last && (c.is_report || ltb 0 w.hog.ctx.report_count)
    then (iter_stop, start_descriptors p entered)
    else (iter_continue, entered)

-- A descriptor's UUID is that of the client configuration, of the report reference, or another.
pub data DescriptorKind : Type 0 where
  ccc report_ref other : DescriptorKind

pub record Descriptor : Type 0 where
  pub handle : ℕ
  pub kind : DescriptorKind

unfoldable pub note_descriptor : Descriptor → DescriptorKind → ReportSlot → ReportSlot
note_descriptor d DescriptorKind.ccc s = record s {
  binding = record (s.binding) { ccc_handle = d.handle };
}
note_descriptor d DescriptorKind.report_ref s = record s { report_ref_handle = d.handle }
note_descriptor d DescriptorKind.other s = s

unfoldable pub descriptor_found :
    Platform → Option ReportSlot → Option Descriptor → World → Bool × World
unfolding or_fail note_descriptor
descriptor_found p none attr w = (iter_stop, w)
descriptor_found p (some slot) none w = (
  iter_stop,
  if slot.report_ref_handle == 0
      then (advance_after_report_ref p w).1
      else or_fail p Reason.hid_report_missing
          (start_report_ref_read p w.hog.ctx.current_report_index) w,
)
descriptor_found p (some slot) (some d) w =
    (iter_continue, update_slot w.hog.ctx.current_report_index (note_descriptor d d.kind) w)

unfoldable pub on_report_descriptor_discovered :
    Platform → ℕ → Option Descriptor → World → Bool × World
unfolding descriptor_found
on_report_descriptor_discovered p conn attr w =
    if conn_matches conn w
    then descriptor_found p (current_report_slot w) attr w
    else (iter_stop, w)
