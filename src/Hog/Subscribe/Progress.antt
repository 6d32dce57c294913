-- ===== src/Hog/Subscribe/Progress.antt =====
-- The subscription phase of main/src/hog_client.c counts what the stack has accepted,
-- and begins with something to wait for, or is over.
use zmk_usb_bridge.Prelude.{
  ◌+◌, ◌<◌, ◌≡◌, refl, ap, ◌⊎◌, inl, inr, Bool, true, false, not, ◌&&◌, ◌||◌, List, [], ◌∷◌, arith,
  if◌then◌else◌, Bool-cases,
}
use zmk_usb_bridge.Prelude.Int.{ℤ}
use zmk_usb_bridge.Types.{Status, is_ok, not_found, Reason}
use zmk_usb_bridge.World.{World, HogState, Platform, Op, ReportSlot}
use zmk_usb_bridge.Hog.Slots.{with_ctx}
use zmk_usb_bridge.Hog.Client
use zmk_usb_bridge.Hog.Client.Frame.{fail_discovery-frame}
use zmk_usb_bridge.Hog.Subscribe.{
  SlotUse, slot_use, subscribe, is_keyboard, subscribed_all, subscribe_usable, subscribe_unusable,
  subscribe_slot, subscribe_slots, start_subscriptions,
}
use zmk_usb_bridge.Hog.Subscribe.Accepted.{accepted, subscribe_slots-Counts}
use zmk_usb_bridge.Hog.Subscribe.Once.{waits, ended-hog, waiting, ending}

-- The discovery is over, or a subscription is outstanding.
abbrev pub Progress : World → Type 0
Progress w = (w.hog.ctx.discovery_active ≡ false) ⊎ (0 < w.hog.ctx.pending_subscriptions)

abbrev IsOpen : World → Type 0
IsOpen w = w.hog.ctx.finalize_pending ≡ false

abbrev Progresses : Op World → Type 0
Progresses m = (w : World) → IsOpen w → Progress (m w).1

either_op :
    (P : World → Type 0) (b : Bool) (x y : Status × World)
    → P x.1
    → P y.1
    → P (if b then x else y).1
either_op P true x y f g = f
either_op P false x y f g = g

fail-Progress :
    (p : Platform) (reason : Reason) (code : ℤ) (w : World)
    → Progress (Client.fail_discovery p w.hog.ctx.conn_handle reason code w).1
fail-Progress p reason code w = inl (
    ap (λ (h : HogState). h.ctx.discovery_active)
      (fail_discovery-frame p w.hog.ctx.conn_handle reason code w).0)

outstanding : (w : World) → waits w ≡ true → IsOpen w → Progress w
outstanding w h open_phase = inr (ground arith)

subscribed_all-Progress :
    (p : Platform) (saw_keyboard : Bool) → Progresses (subscribed_all p saw_keyboard)
unfolding subscribed_all
subscribed_all-Progress p false w open_phase = fail-Progress p Reason.hid_report_missing not_found w
subscribed_all-Progress p true w open_phase = elim (Bool-cases (waits w)) [
  | inl early ↦ rw (waiting p w early) (outstanding w early open_phase)
  | inr now ↦ rw (ending p w now) (inl (rw (ended-hog p w) refl))
]

subscribe-IsOpen :
    (p : Platform) (slot : ReportSlot) (w : World) → IsOpen w → IsOpen (subscribe p slot w).1
unfolding subscribe
subscribe-IsOpen p slot w open_phase = either_op IsOpen _ _ _ open_phase open_phase

subscribe_slot-Progress :
    (p : Platform) (use_of : SlotUse) (slot : ReportSlot) (rest : Bool → Op World)
    (saw_keyboard : Bool)
    → ((saw : Bool) → Progresses (rest saw))
    → Progresses (subscribe_slot p use_of slot rest saw_keyboard)
unfolding subscribe_slot subscribe_usable subscribe_unusable
subscribe_slot-Progress p SlotUse.skipped slot rest saw_keyboard goes w open_phase =
    goes saw_keyboard w open_phase
subscribe_slot-Progress p SlotUse.unusable slot rest saw_keyboard goes w open_phase =
    either_op Progress (is_keyboard slot)
      (Client.fail_discovery p w.hog.ctx.conn_handle Reason.hid_subscribe_failed not_found w)
      (rest saw_keyboard w) (fail-Progress p Reason.hid_subscribe_failed not_found w)
      (goes saw_keyboard w open_phase)
subscribe_slot-Progress p SlotUse.usable slot rest saw_keyboard goes w open_phase =
    let (err, after) = subscribe p slot w in
    either_op Progress (not (is_ok err) && is_keyboard slot)
      (Client.fail_discovery p after.hog.ctx.conn_handle Reason.hid_subscribe_failed err after)
      (rest (saw_keyboard || is_keyboard slot) after)
      (fail-Progress p Reason.hid_subscribe_failed err after)
      (goes (saw_keyboard || is_keyboard slot) after (subscribe-IsOpen p slot w open_phase))

subscribe_slots-Progress :
    (p : Platform) (slots : List ReportSlot) (saw_keyboard : Bool)
    → Progresses (subscribe_slots p slots saw_keyboard)
unfolding subscribe_slots
subscribe_slots-Progress p [] saw_keyboard = subscribed_all-Progress p saw_keyboard
subscribe_slots-Progress p (slot ∷ slots) saw_keyboard =
    subscribe_slot-Progress p (slot_use slot) slot (subscribe_slots p slots) saw_keyboard
      (subscribe_slots-Progress p slots)

-- Once the subscriptions are begun, the counter of the outstanding ones is exactly the number of those
-- that the stack has accepted since, those that were refused left out; and either the discovery is
-- over, with a failure or with none accepted, or that number is positive. A subscription that the stack
-- says it has already (`-EALREADY`) counts as accepted. Conditions: the phase has not ended before.
pub start_subscriptions-Progress :
    (p : Platform) (w : World)
    → w.hog.ctx.finalize_pending ≡ false
    → let after = (start_subscriptions p w).1 in
      (accepted p after.calls ≡ accepted p w.calls + after.hog.ctx.pending_subscriptions)
      × Progress after
unfolding start_subscriptions
start_subscriptions-Progress p w open_phase =
    let none_yet = with_ctx (λ c. record c { pending_subscriptions = 0 }) w in
    (
      subscribe_slots-Counts p (accepted p w.calls) w.hog.ctx.reports false none_yet (omega arith),
      subscribe_slots-Progress p w.hog.ctx.reports false none_yet open_phase,
    )
