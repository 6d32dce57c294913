-- ===== src/Hog/Reads/Steps.antt =====
-- Every step of the discovery in main/src/hog_client.c keeps the invariant of the client's state.
use zmk_usb_bridge.Prelude.{
  ℕ, zero, suc, ◌-◌, inl, inr, Bool, true, false, not, ◌&&◌, ◌||◌, List, [], ◌∷◌, Option, none,
  some, arith, ◌==◌, leb, get_elem?, if◌then◌else◌, Bool-cases, Option-cases,
}
use zmk_usb_bridge.Types.{is_ok, invalid_argument, not_found, Role, Reason}
use zmk_usb_bridge.World.{World, Platform, Op, ReportSlot}
use zmk_usb_bridge.Hog.Slots.{with_ctx, find_slot_by_role}
use zmk_usb_bridge.Hog.Client
use zmk_usb_bridge.Hog.Subscribe.{
  SlotUse, slot_use, finalize_subscription_phase, subscribe, is_keyboard, subscribed_all,
  subscribe_usable, subscribe_unusable, subscribe_slot, subscribe_slots, start_subscriptions,
}
use zmk_usb_bridge.Hog.Discovery.{
  start_mouse_feature_read, all_described, at_index, describe, advance, advance_after_report_ref,
  start_descriptor_discovery, start_report_ref_read,
}
use zmk_usb_bridge.Hog.Reads.Valid.{
  HogValid, either-HogValid, either_op-HogValid, fail_discovery-HogValid,
  complete_discovery-HogValid,
}

abbrev pub Keeps : ℕ → Op World → Type 0
Keeps k m = (w : World) → HogValid k w → HogValid k (m w).1

pub finalize-HogValid :
    {k : ℕ} (p : Platform) (w : World) → HogValid k w → HogValid k (finalize_subscription_phase p w)
unfolding finalize_subscription_phase
finalize-HogValid p w v =
    let marked = with_ctx (λ c. record c { finalize_pending = true }) w in
    either-HogValid (w.hog.ctx.finalize_pending || not (w.hog.ctx.pending_subscriptions == 0)) w _
      (λ early. v)
      (λ now.
        either-HogValid w.hog.profile.has_keyboard_input _ _
          (λ keyboard. complete_discovery-HogValid p w.hog.ctx.conn_handle marked v)
          (λ none_found.
            fail_discovery-HogValid p w.hog.ctx.conn_handle Reason.hid_subscribe_failed not_found
              marked v))

subscribe-HogValid : {k : ℕ} (p : Platform) (slot : ReportSlot) → Keeps k (subscribe p slot)
unfolding subscribe
subscribe-HogValid p slot w v = either_op-HogValid _ _ _ (λ taken. v) (λ failed. v)

subscribed_all-HogValid :
    {k : ℕ} (p : Platform) (saw_keyboard : Bool) → Keeps k (subscribed_all p saw_keyboard)
unfolding subscribed_all
subscribed_all-HogValid p true w v = finalize-HogValid p w v
subscribed_all-HogValid p false w v =
    fail_discovery-HogValid p w.hog.ctx.conn_handle Reason.hid_report_missing not_found w v

subscribe_slot-HogValid :
    {k : ℕ} (p : Platform) (use_of : SlotUse) (slot : ReportSlot) (rest : Bool → Op World)
    (saw_keyboard : Bool)
    → ((saw : Bool) → Keeps k (rest saw))
    → Keeps k (subscribe_slot p use_of slot rest saw_keyboard)
unfolding subscribe_slot subscribe_usable subscribe_unusable
subscribe_slot-HogValid p SlotUse.skipped slot rest saw_keyboard keeps w v = keeps saw_keyboard w v
subscribe_slot-HogValid p SlotUse.unusable slot rest saw_keyboard keeps w v =
    either_op-HogValid (is_keyboard slot) _ _
      (λ keyboard.
        fail_discovery-HogValid p w.hog.ctx.conn_handle Reason.hid_subscribe_failed not_found w v)
      (λ other. keeps saw_keyboard w v)
subscribe_slot-HogValid p SlotUse.usable slot rest saw_keyboard keeps w v =
    let (err, after) = subscribe p slot w in
    either_op-HogValid (not (is_ok err) && is_keyboard slot)
      (Client.fail_discovery p after.hog.ctx.conn_handle Reason.hid_subscribe_failed err after)
      (rest (saw_keyboard || is_keyboard slot) after)
      (λ keyboard.
        fail_discovery-HogValid p after.hog.ctx.conn_handle Reason.hid_subscribe_failed err after
          (subscribe-HogValid p slot w v))
      (λ other. keeps (saw_keyboard || is_keyboard slot) after (subscribe-HogValid p slot w v))

subscribe_slots-HogValid :
    {k : ℕ} (p : Platform) (slots : List ReportSlot) (saw_keyboard : Bool)
    → Keeps k (subscribe_slots p slots saw_keyboard)
unfolding subscribe_slots
subscribe_slots-HogValid p [] saw_keyboard = subscribed_all-HogValid p saw_keyboard
subscribe_slots-HogValid p (slot ∷ slots) saw_keyboard =
    subscribe_slot-HogValid p (slot_use slot) slot (subscribe_slots p slots) saw_keyboard
      (subscribe_slots-HogValid p slots)

pub start_subscriptions-HogValid : {k : ℕ} (p : Platform) → Keeps k (start_subscriptions p)
unfolding start_subscriptions
start_subscriptions-HogValid p w v = subscribe_slots-HogValid p w.hog.ctx.reports false _ v

start_mouse_feature_read-HogValid : {k : ℕ} (p : Platform) → Keeps k (start_mouse_feature_read p)
unfolding start_mouse_feature_read
start_mouse_feature_read-HogValid p w v =
    elim (Option-cases (find_slot_by_role Role.mouse_feature w)) [
      | inl absent ↦ rw absent v
      | inr (slot, found) ↦ rw found (either_op-HogValid _ _ _ (λ readable. v) (λ other. v))
    ]

all_described-HogValid : {k : ℕ} (p : Platform) → Keeps k (all_described p)
unfolding all_described
all_described-HogValid p w v =
    let (status, after) = start_mouse_feature_read p w in
    let chosen = if w.hog.profile.has_mouse_feature then after else w in
    either_op-HogValid (w.hog.profile.has_mouse_feature && is_ok status) (status, after)
      (start_subscriptions p chosen) (λ read. start_mouse_feature_read-HogValid p w v)
      (λ skipped. start_subscriptions-HogValid p chosen (
        either-HogValid w.hog.profile.has_mouse_feature after w
          (λ failed. start_mouse_feature_read-HogValid p w v) (λ absent. v)))

describe-HogValid :
    {k : ℕ} (p : Platform) (skip : Op World) (index : ℕ) (slot : Option ReportSlot)
    → Keeps k skip
    → Keeps k (describe p skip index slot)
unfolding describe
describe-HogValid p skip index none keeps w v = v
describe-HogValid p skip index (some slot) keeps w v =
    elim (Bool-cases (leb slot.end_handle slot.binding.value_handle)) [
      | inl full ↦ rw (full, describe) (keeps w v)
      | inr open_range ↦ rw (open_range, describe) v
    ]

advance-HogValid : {k : ℕ} (p : Platform) (left : ℕ) → Keeps k (advance p left)
unfolding advance
advance-HogValid p zero w v =
    all_described-HogValid p (at_index (suc w.hog.ctx.current_report_index) w) v
advance-HogValid p (suc left) w v =
    let index = suc w.hog.ctx.current_report_index in
    describe-HogValid p (advance p left) index (get_elem? w.hog.ctx.reports index)
      (advance-HogValid p left) (at_index index w) v

pub advance_after_report_ref-HogValid :
    {k : ℕ} (p : Platform) → Keeps k (advance_after_report_ref p)
unfolding advance_after_report_ref
advance_after_report_ref-HogValid p w v =
    advance-HogValid p (w.hog.ctx.report_count - suc w.hog.ctx.current_report_index) w v

pub start_descriptor_discovery-HogValid :
    {k : ℕ} (p : Platform) (index : ℕ) → Keeps k (start_descriptor_discovery p index)
unfolding start_descriptor_discovery
start_descriptor_discovery-HogValid p index w v =
    let slot = get_elem? w.hog.ctx.reports index in
    either_op-HogValid (leb w.hog.ctx.report_count index) (invalid_argument, w)
      (describe p (advance_after_report_ref p) index slot w) (λ outside. v)
      (λ inside.
        describe-HogValid p (advance_after_report_ref p) index slot
          (advance_after_report_ref-HogValid p) w v)

pub start_report_ref_read-HogValid :
    {k : ℕ} (p : Platform) (index : ℕ) → Keeps k (start_report_ref_read p index)
unfolding start_report_ref_read
start_report_ref_read-HogValid p index w v =
    elim (Option-cases (get_elem? w.hog.ctx.reports index)) [
      | inl absent ↦ rw absent (ground (arith, v))
      | inr (slot, found) ↦ rw found (ground (arith, v))
    ]
