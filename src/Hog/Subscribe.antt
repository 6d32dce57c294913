-- ===== src/Hog/Subscribe.antt =====
-- The subscriptions to the input reports in main/src/hog_client.c, and the end of a discovery once
-- none of them is outstanding. `-EALREADY` has newlib's number.
pub mod Once
pub mod Accepted
pub mod Progress
pub mod Posts
use zmk_usb_bridge.Prelude.{
  ℕ, suc, ◌-◌, Bool, true, false, not, ◌&&◌, ◌||◌, List, [], ◌∷◌, ◌==◌, if◌then◌else◌,
}
use zmk_usb_bridge.Prelude.Int.{ℤ, pos, negsuc}
use zmk_usb_bridge.Types.{ok, not_found, is_ok, Role, Reason}
use zmk_usb_bridge.World.{World, Platform, Op, ReportSlot, invoke, gatt_subscribe}
use zmk_usb_bridge.Hog.Slots.{with_ctx, same_role, type_input}
use zmk_usb_bridge.Hog.Feature.{can_notify}
use zmk_usb_bridge.Hog.Client

unfoldable pub finalize_subscription_phase : Platform → World → World
finalize_subscription_phase p w =
    let marked = with_ctx (λ c. record c { finalize_pending = true }) w in
    let failed =
      (Client.fail_discovery p w.hog.ctx.conn_handle Reason.hid_subscribe_failed not_found
        marked).1 in
    let completed = (Client.complete_discovery p w.hog.ctx.conn_handle marked).1 in
    if w.hog.ctx.finalize_pending || not (w.hog.ctx.pending_subscriptions == 0)
    then w
    else if w.hog.profile.has_keyboard_input
    then completed
    else failed

-- What a slot is to `start_subscriptions`: it is no input, it cannot be subscribed to, or it can.
pub data SlotUse : Type 0 where
  skipped unusable usable : SlotUse

unfoldable pub slot_use : ReportSlot → SlotUse
slot_use slot =
    if not slot.in_use
      || same_role slot.binding.role Role.unknown
      || not (slot.binding.report_type == type_input)
    then SlotUse.skipped
    else if not (can_notify slot.properties) || slot.binding.ccc_handle == 0
    then SlotUse.unusable
    else SlotUse.usable

-- `-EALREADY`.
abbrev pub already : ℤ
already = negsuc 119

abbrev pub is_already : ℤ → Bool
is_already (pos n) = false
is_already (negsuc n) = n == 119

abbrev add_pending : World → World
add_pending w = with_ctx (λ c. record c { pending_subscriptions = suc c.pending_subscriptions }) w

abbrev drop_pending : World → World
drop_pending w = with_ctx (λ c. record c { pending_subscriptions = c.pending_subscriptions - 1 }) w

-- One subscription: `pending_subscriptions++`, the call, and `pending_subscriptions--` if it failed.
unfoldable pub subscribe : Platform → ReportSlot → Op World
subscribe p slot w =
    let (err, after) =
      invoke p (gatt_subscribe w.hog.ctx.conn slot.binding.value_handle slot.binding.ccc_handle)
        (add_pending w) in
    if is_ok err || is_already err then (ok, after) else (err, drop_pending after)

abbrev pub is_keyboard : ReportSlot → Bool
is_keyboard slot = same_role slot.binding.role Role.keyboard_input

-- The end of the loop.
unfoldable pub subscribed_all : Platform → Bool → Op World
subscribed_all p saw_keyboard w =
    if saw_keyboard
    then (ok, finalize_subscription_phase p w)
    else Client.fail_discovery p w.hog.ctx.conn_handle Reason.hid_report_missing not_found w

-- The loop of `start_subscriptions` over the slots that are left. `rest` is the loop after the slot.
unfoldable pub subscribe_usable : Platform → ReportSlot → (Bool → Op World) → Bool → Op World
subscribe_usable p slot rest saw_keyboard w =
    let (err, after) = subscribe p slot w in
    if not (is_ok err) && is_keyboard slot
    then Client.fail_discovery p after.hog.ctx.conn_handle Reason.hid_subscribe_failed err after
    else rest (saw_keyboard || is_keyboard slot) after

unfoldable pub subscribe_unusable : Platform → ReportSlot → (Bool → Op World) → Bool → Op World
subscribe_unusable p slot rest saw_keyboard w =
    if is_keyboard slot
    then Client.fail_discovery p w.hog.ctx.conn_handle Reason.hid_subscribe_failed not_found w
    else rest saw_keyboard w

unfoldable pub subscribe_slot :
    Platform → SlotUse → ReportSlot → (Bool → Op World) → Bool → Op World
unfolding subscribe_usable subscribe_unusable
subscribe_slot p SlotUse.skipped slot rest saw_keyboard w = rest saw_keyboard w
subscribe_slot p SlotUse.unusable slot rest saw_keyboard w =
    subscribe_unusable p slot rest saw_keyboard w
subscribe_slot p SlotUse.usable slot rest saw_keyboard w =
    subscribe_usable p slot rest saw_keyboard w

unfoldable pub subscribe_slots : Platform → List ReportSlot → Bool → Op World
subscribe_slots p [] saw_keyboard w = subscribed_all p saw_keyboard w
subscribe_slots p (slot ∷ slots) saw_keyboard w =
    subscribe_slot p (slot_use slot) slot (subscribe_slots p slots) saw_keyboard w

unfoldable pub start_subscriptions : Platform → Op World
start_subscriptions p w =
    subscribe_slots p w.hog.ctx.reports false
      (with_ctx (λ c. record c { pending_subscriptions = 0 }) w)
