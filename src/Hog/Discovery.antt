-- ===== src/Hog/Discovery.antt =====
-- The steps of the discovery in main/src/hog_client.c, each of which asks the GATT client for the
-- next thing: the service, its characteristics, the descriptors of each report, the report
-- references and the mouse feature.
pub mod Walk
use zmk_usb_bridge.Prelude.{
  ℕ, zero, suc, ◌+◌, ◌-◌, ◌%◌, Bool, true, false, not, ◌&&◌, ◌||◌, List, [], ◌∷◌, Option, none,
  some, ◌==◌, leb, get_elem?, if◌then◌else◌,
}
use zmk_usb_bridge.Prelude.Int.{ℤ, pos, negsuc}
use zmk_usb_bridge.Types.{
  Status, ok, invalid_argument, invalid_state, not_found, is_ok, Role, Reason,
}
use zmk_usb_bridge.World.{
  World, Platform, Op, ReportSlot, HogContext, invoke, log, discover_primary,
  discover_characteristics, discover_descriptors, gatt_read, gatt_subscribe, conn_ref,
}
use zmk_usb_bridge.Hog.Slots.{with_ctx, same_role, find_slot_by_role, type_input, discovery_active}
use zmk_usb_bridge.Hog.Feature.{can_read}
use zmk_usb_bridge.Hog.Subscribe.{start_subscriptions}
use zmk_usb_bridge.Hog.Client

unfoldable pub start_service_discovery : Platform → Op World
start_service_discovery p w = invoke p (discover_primary w.hog.ctx.conn) w

-- `start_handle + 1U` in 16 bits.
abbrev pub next_handle : ℕ → ℕ
next_handle handle = (handle + 1) % 65536

unfoldable pub start_report_discovery : Platform → Op World
start_report_discovery p w =
    invoke p
      (discover_characteristics w.hog.ctx.conn (next_handle w.hog.ctx.service_start_handle)
        w.hog.ctx.service_end_handle)
      w

read_feature : Platform → Option ReportSlot → Op World
read_feature p none w = (not_found, w)
read_feature p (some slot) w =
    if can_read slot.properties
    then invoke p (gatt_read w.hog.ctx.conn slot.binding.value_handle) w
    else (invalid_state, w)

unfoldable pub start_mouse_feature_read : Platform → Op World
unfolding read_feature
start_mouse_feature_read p w = read_feature p (find_slot_by_role Role.mouse_feature w) w

-- `advance_after_report_ref` past the last slot.
unfoldable pub all_described : Platform → Op World
all_described p w =
    let (status, after) = start_mouse_feature_read p w in
    if w.hog.profile.has_mouse_feature && is_ok status
    then (status, after)
    else start_subscriptions p (if w.hog.profile.has_mouse_feature then after else w)

abbrev pub at_index : ℕ → World → World
at_index index w = with_ctx (λ c. record c { current_report_index = index }) w

-- `start_descriptor_discovery` of a slot; `skip` is its call of `advance_after_report_ref`.
unfoldable pub describe : Platform → Op World → ℕ → Option ReportSlot → Op World
describe p skip index none w = (invalid_argument, w)
describe p skip index (some slot) w = elim (leb slot.end_handle slot.binding.value_handle) [
  | true ↦ skip w
  | false ↦
      invoke p
        (discover_descriptors w.hog.ctx.conn (next_handle slot.binding.value_handle)
          slot.end_handle)
        (at_index index w)
]

-- `advance_after_report_ref` with `left` slots after the current one.
unfoldable pub advance : Platform → ℕ → Op World
unfolding describe
advance p zero w = all_described p (at_index (suc w.hog.ctx.current_report_index) w)
advance p (suc left) w =
    let next = at_index (suc w.hog.ctx.current_report_index) w in
    describe p (advance p left) (suc w.hog.ctx.current_report_index)
      (get_elem? w.hog.ctx.reports (suc w.hog.ctx.current_report_index)) next

unfoldable pub advance_after_report_ref : Platform → Op World
unfolding advance
advance_after_report_ref p w =
    advance p (w.hog.ctx.report_count - suc w.hog.ctx.current_report_index) w

unfoldable pub start_descriptor_discovery : Platform → ℕ → Op World
unfolding describe
start_descriptor_discovery p index w =
    if leb w.hog.ctx.report_count index
    then (invalid_argument, w)
    else describe p (advance_after_report_ref p) index (get_elem? w.hog.ctx.reports index) w

read_ref : Platform → Option ReportSlot → Op World
read_ref p none w = (invalid_argument, w)
read_ref p (some slot) w =
    if slot.report_ref_handle == 0
    then (not_found, w)
    else invoke p (gatt_read w.hog.ctx.conn slot.report_ref_handle) w

unfoldable pub start_report_ref_read : Platform → ℕ → Op World
unfolding read_ref
start_report_ref_read p index w =
    if leb w.hog.ctx.report_count index
    then (invalid_argument, w)
    else read_ref p (get_elem? w.hog.ctx.reports index) w

abbrev pub begin_discovery : ℕ → ℕ → World → World
begin_discovery conn conn_handle w =
    with_ctx
      (λ c. record c { conn = some conn; conn_handle = conn_handle; discovery_active = true })
      (log (conn_ref conn) w)

-- The connection is a pointer that may be NULL. `reset` cannot fail.
unfoldable pub start_discovery : Platform → Option ℕ → ℕ → Op World
start_discovery p none conn_handle w = (invalid_argument, w)
start_discovery p (some conn) conn_handle w =
    if discovery_active conn_handle w
    then (ok, w)
    else start_service_discovery p (begin_discovery conn conn_handle (Client.reset w).1)
