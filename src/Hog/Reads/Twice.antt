-- ===== src/Hog/Reads/Twice.antt =====
-- A failed answer in the middle of the subscriptions of main/src/hog_client.c.
use zmk_usb_bridge.Prelude.{
  ℕ, ◌<◌, ◌≡◌, refl, ap, List, ◌∙◌, true, false, ◌||◌, ◌∷◌, some, arith, ◌==◌, get_elem?, lt→ltb,
}
use zmk_usb_bridge.Prelude.Int.{pos}
use zmk_usb_bridge.Types.{Role, EventType, Reason}
use zmk_usb_bridge.World.{World, Platform, ReportSlot, Call}
use zmk_usb_bridge.Queue.{posted, QueueTakes}
use zmk_usb_bridge.Hog.Slots.{
  same_role, conn_matches, find_slot_by_subscribe_params, set_profile_capability, update_slot,
  profile_with,
}
use zmk_usb_bridge.Hog.Subscribe.{is_keyboard, finalize_subscription_phase}
use zmk_usb_bridge.Hog.Subscribe.Once.{waits, ending}
use zmk_usb_bridge.Hog.Subscribe.Posts.{types, fail-posted, end_type, ended-posted}
use zmk_usb_bridge.Hog.Reads.{
  drop_subscription, subscription_ended, subscribed_slot, on_report_subscribed,
}
use zmk_usb_bridge.Hog.Reads.Ending.{noted-Answered, waits_last, noted, failed, failed-hog}

-- An answer that fails the keyboard's subscription, and one that is well.
answer-fails :
    (p : Platform) (conn i err : ℕ) (slot : ReportSlot) (w : World)
    → conn_matches conn w ≡ true
    → i < w.hog.ctx.report_count
    → get_elem? w.hog.ctx.reports i ≡ some slot
    → slot.binding.role ≡ Role.keyboard_input
    → (err == 0) ≡ false
    → on_report_subscribed p conn err i w ≡ failed p err w
unfolding on_report_subscribed subscribed_slot find_slot_by_subscribe_params subscription_ended
answer-fails p conn i err slot w matches within found keyboard bad =
    rw (matches, lt→ltb i w.hog.ctx.report_count within, found, bad, keyboard) refl

answer-well :
    (p : Platform) (conn j : ℕ) (slot : ReportSlot) (w : World)
    → conn_matches conn w ≡ true
    → j < w.hog.ctx.report_count
    → get_elem? w.hog.ctx.reports j ≡ some slot
    → on_report_subscribed p conn 0 j w ≡ finalize_subscription_phase p (noted j slot w)
unfolding on_report_subscribed subscribed_slot find_slot_by_subscribe_params subscription_ended
answer-well p conn j slot w matches within found =
    rw (matches, lt→ltb j w.hog.ctx.report_count within, found) refl

noted-waits :
    (j : ℕ) (slot : ReportSlot) (w : World)
    → w.hog.ctx.pending_subscriptions ≡ 1
    → w.hog.ctx.finalize_pending ≡ false
    → waits (noted j slot w) ≡ false
noted-waits j slot w one open_phase =
    waits_last w (noted j slot w) (noted-Answered j slot w) one open_phase

noted-profile :
    (slot_role : Role) (w : World)
    → (set_profile_capability slot_role true w).hog.profile.has_keyboard_input
      ≡ (same_role slot_role Role.keyboard_input || w.hog.profile.has_keyboard_input)
unfolding set_profile_capability profile_with
noted-profile Role.keyboard_input w = refl
noted-profile Role.consumer_input w = refl
noted-profile Role.mouse_input w = refl
noted-profile Role.mouse_feature w = refl
noted-profile Role.led_output w = refl
noted-profile Role.unknown w = refl

noted-rest :
    (j : ℕ) (slot : ReportSlot) (w : World)
    → get_elem? w.hog.ctx.reports j ≡ some slot
    → let after = noted j slot w in
      (after.calls ≡ w.calls)
      × (after.event_thread_started ≡ w.event_thread_started)
      × (after.hog.profile.has_keyboard_input
          ≡ (is_keyboard slot || w.hog.profile.has_keyboard_input))
noted-rest j slot w found = (
  unfold set_profile_capability in rw (found, update_slot) refl,
  unfold set_profile_capability in rw (found, update_slot) refl,
  noted-profile slot.binding.role _ ∙ rw (found, update_slot) refl,
)

-- The last answer after a failed one ends the discovery.
well-ends :
    (p : Platform) (conn j : ℕ) (slot : ReportSlot) (w : World)
    → conn_matches conn w ≡ true
    → j < w.hog.ctx.report_count
    → get_elem? w.hog.ctx.reports j ≡ some slot
    → w.hog.ctx.pending_subscriptions ≡ 1
    → w.hog.ctx.finalize_pending ≡ false
    → w.event_thread_started ≡ true
    → QueueTakes p
    → let keyboard = is_keyboard slot || w.hog.profile.has_keyboard_input in
      let after = on_report_subscribed p conn 0 j w in
      (types (posted p after.calls) ≡ end_type keyboard ∷ types (posted p w.calls))
      × (keyboard ≡ true → after.bridge.input_active ≡ true)
well-ends p conn j slot w matches within found one open_phase started takes =
    let v = noted j slot w in
    let rest = noted-rest j slot w found in
    let same =
      answer-well p conn j slot w matches within found
      ∙ ending p v (noted-waits j slot w one open_phase) in
    let keyboard = is_keyboard slot || w.hog.profile.has_keyboard_input in
    let end = ended-posted p keyboard v rest.2 (rest.1 ∙ started) takes in
    rw same
      (end.0 ∙ ap (λ (calls : List Call). end_type keyboard ∷ types (posted p calls)) rest.0, end.1)

-- A keyboard's subscription that is answered with an error ends the discovery with HID_FAILURE, but
-- does not mark the phase as ended. So if one other is outstanding and is answered well, the discovery
-- ends again, with a second event: HID_READY, with input on, if a keyboard's report is subscribed to by
-- then, and HID_FAILURE otherwise. Conditions: both answers come for the client's connection and for
-- one of its reports, they are the two that are outstanding, the phase has not ended before, and the
-- queue takes events.
pub failure_ends_twice :
    (p : Platform) (conn i j err : ℕ) (slot next : ReportSlot) (w : World)
    → conn_matches conn w ≡ true
    → i < w.hog.ctx.report_count
    → j < w.hog.ctx.report_count
    → get_elem? w.hog.ctx.reports i ≡ some slot
    → get_elem? w.hog.ctx.reports j ≡ some next
    → slot.binding.role ≡ Role.keyboard_input
    → (err == 0) ≡ false
    → w.hog.ctx.pending_subscriptions ≡ 2
    → w.hog.ctx.finalize_pending ≡ false
    → w.event_thread_started ≡ true
    → QueueTakes p
    → let keyboard = is_keyboard next || w.hog.profile.has_keyboard_input in
      let first = on_report_subscribed p conn err i w in
      let second = on_report_subscribed p conn 0 j first in
      (first.hog.ctx.discovery_active ≡ false)
      × (types (posted p second.calls)
          ≡ end_type keyboard ∷ EventType.hid_failure ∷ types (posted p w.calls))
      × (keyboard ≡ true → second.bridge.input_active ≡ true)
failure_ends_twice p conn i j err slot next w matches within_i within_j found_i found_j keyboard bad
      two open_phase started takes =
    let after = failed p err w in
    let same = failed-hog p err w in
    let told =
      fail-posted p w.hog.ctx.conn_handle Reason.hid_subscribe_failed (pos err)
        (drop_subscription w) started takes in
    let last =
      well-ends p conn j next after (rw (same, conn_matches) matches) (rw same within_j)
        (rw same found_j) (rw same (omega arith)) (rw same open_phase) told.1 takes in
    let ready = is_keyboard next || w.hog.profile.has_keyboard_input in
    rw (answer-fails p conn i err slot w matches within_i found_i keyboard bad) (
      rw same refl,
      last.0 ∙ rw same (ap (λ l. end_type ready ∷ l) told.0),
      λ k. last.1 (rw same k),
    )
