-- ===== src/Hog/Reads/Answers.antt =====
-- The callbacks of main/src/hog_client.c for descriptors, reads and subscriptions keep the invariant of
-- the client's state.
use zmk_usb_bridge.Prelude.{
  ℕ, refl, ◌∙◌, inl, inr, true, not, ◌&&◌, ◌||◌, List, Option, none, some, ◌==◌, ltb, length,
  get_elem?, get_or, length-set, if◌then◌else◌, Bool-cases, Option-cases,
}
use zmk_usb_bridge.Prelude.Int.{pos}
use zmk_usb_bridge.Types.{Status, Role, Reason, MouseResolution}
use zmk_usb_bridge.World.{World, Platform, ReportSlot, log, gatt_write}
use zmk_usb_bridge.Hog.Mouse.{
  decode_mouse_feature_payload, encode_mouse_feature_payload, resolution_max,
}
use zmk_usb_bridge.Hog.Slots.{
  same_role, conn_matches, current_report_slot, update_slot, profile_with, set_profile_capability,
  set_mouse_resolution, find_slot_by_role, find_slot_by_subscribe_params,
}
use zmk_usb_bridge.Hog.Feature.{write_mouse_feature_to_peer, write_slot, can_write_without_response}
use zmk_usb_bridge.Hog.Client
use zmk_usb_bridge.Hog.Subscribe.{finalize_subscription_phase, start_subscriptions, is_keyboard}
use zmk_usb_bridge.Hog.Discovery.{start_report_ref_read, advance_after_report_ref}
use zmk_usb_bridge.Hog.Callbacks.{
  Descriptor, or_fail, note_descriptor, descriptor_found, on_report_descriptor_discovered,
}
use zmk_usb_bridge.Hog.Reads.{
  take_feature, on_mouse_feature_read, on_report_subscribed, identify, note_role, take_reference,
  drop_subscription, subscription_ended, subscribed_slot, reference_read, on_report_ref_read,
}
use zmk_usb_bridge.Hog.Reads.Valid.{HogValid, either-HogValid, fail_discovery-HogValid}
use zmk_usb_bridge.Hog.Reads.Steps.{
  finalize-HogValid, start_subscriptions-HogValid, advance_after_report_ref-HogValid,
  start_report_ref_read-HogValid,
}
use zmk_usb_bridge.Hog.Reads.Invariant.{or_fail-HogValid}

update_slot-HogValid :
    {k : ℕ} (i : ℕ) (f : ReportSlot → ReportSlot) (w : World)
    → HogValid k w
    → HogValid k (update_slot i f w)
update_slot-HogValid i f w v = elim (Option-cases (get_elem? w.hog.ctx.reports i)) [
  | inl absent ↦ rw (absent, update_slot) v
  | inr (slot, found) ↦
      rw (found, update_slot) (v.0, length-set w.hog.ctx.reports i (f slot) ∙ v.1, v.2, v.3)
]

pub descriptor-HogValid :
    {k : ℕ} (p : Platform) (conn : ℕ) (attr : Option Descriptor) (w : World)
    → HogValid k w
    → HogValid k (on_report_descriptor_discovered p conn attr w).1
unfolding on_report_descriptor_discovered descriptor_found
descriptor-HogValid {k} p conn attr w v = elim (Bool-cases (conn_matches conn w)) [
  | inr other ↦ rw other v
  | inl matches ↦ elim (Option-cases (current_report_slot w)) [
    | inl absent ↦ rw (matches, absent) v
    | inr (slot, found) ↦ rw (matches, found) (slot_case slot attr)
  ]
]
  where
    slot_case :
        (slot : ReportSlot) (attr : Option Descriptor)
        → HogValid k (descriptor_found p (some slot) attr w).1
    slot_case slot none =
        either-HogValid (slot.report_ref_handle == 0) (advance_after_report_ref p w).1
          (or_fail p Reason.hid_report_missing
            (start_report_ref_read p w.hog.ctx.current_report_index) w)
          (λ missing. advance_after_report_ref-HogValid p w v)
          (λ there.
            or_fail-HogValid p Reason.hid_report_missing
              (start_report_ref_read p w.hog.ctx.current_report_index) w
              (start_report_ref_read-HogValid p w.hog.ctx.current_report_index) v)
    slot_case slot (some d) =
        update_slot-HogValid w.hog.ctx.current_report_index (note_descriptor d d.kind) w v

write_slot-HogValid :
    {k : ℕ} (conn : Option ℕ) (slot : Option ReportSlot) (resolution : MouseResolution) (w : World)
    → HogValid k w
    → HogValid k (write_slot conn slot resolution w)
unfolding write_slot
write_slot-HogValid none slot resolution w v = v
write_slot-HogValid (some conn) none resolution w v = v
write_slot-HogValid (some conn) (some slot) resolution w v =
    either-HogValid (can_write_without_response slot.properties)
      (log (gatt_write conn slot.binding.value_handle (encode_mouse_feature_payload resolution)) w)
      w (λ writable. v) (λ other. v)

write-HogValid : {k : ℕ} (w : World) → HogValid k w → HogValid k (write_mouse_feature_to_peer w)
unfolding write_mouse_feature_to_peer
write-HogValid w v =
    write_slot-HogValid w.hog.ctx.conn (find_slot_by_role Role.mouse_feature w)
      w.hog.mouse_resolution w v

take_feature-HogValid :
    {k : ℕ} (decoded : Status × Option MouseResolution) (w : World)
    → HogValid k w
    → HogValid k (take_feature decoded w)
unfolding take_feature set_mouse_resolution
take_feature-HogValid (status, none) w v = v
take_feature-HogValid (status, some resolution) w v =
    either-HogValid w.hog.mouse_resolution_from_host (write_mouse_feature_to_peer w)
      (set_mouse_resolution resolution.wheel resolution.hor_wheel w)
      (λ from_host. write-HogValid w v) (λ own. v)

pub feature-HogValid :
    {k : ℕ} (p : Platform) (conn err : ℕ) (payload : Option (List ℕ)) (w : World)
    → HogValid k w
    → HogValid k (on_mouse_feature_read p conn err payload w).1
unfolding on_mouse_feature_read
feature-HogValid p conn err none w v = v
feature-HogValid p conn err (some payload) w v =
    let taken = take_feature (decode_mouse_feature_payload payload (length payload)) w in
    either-HogValid (not (conn_matches conn w)) w
      (if not (err == 0) then (start_subscriptions p w).1 else (start_subscriptions p taken).1)
      (λ other. v)
      (λ matches.
        either-HogValid (not (err == 0)) (start_subscriptions p w).1 (start_subscriptions p taken).1
          (λ failed. start_subscriptions-HogValid p w v)
          (λ read.
            start_subscriptions-HogValid p taken
              (take_feature-HogValid (decode_mouse_feature_payload payload (length payload)) w v)))

-- A capability that is switched on never takes the keyboard away.
capability-HogValid :
    {k : ℕ} (role : Role) (w : World)
    → HogValid k w
    → HogValid k (set_profile_capability role true w)
unfolding set_profile_capability profile_with
capability-HogValid Role.unknown w v = v
capability-HogValid Role.keyboard_input w v = (v.0, v.1, v.2, λ e. refl)
capability-HogValid Role.consumer_input w v = v
capability-HogValid Role.mouse_input w v = v
capability-HogValid Role.mouse_feature w v = v
capability-HogValid Role.led_output w v = v

ended-HogValid :
    {k : ℕ} (p : Platform) (i : ℕ) (slot : ReportSlot) (err : ℕ) (w : World)
    → HogValid k w
    → HogValid k (subscription_ended p i slot err w)
unfolding subscription_ended
ended-HogValid p i slot err w v =
    let counted = drop_subscription w in
    let mark =
      λ (s : ReportSlot). record s { binding = record (s.binding) { subscribed = true } } in
    let noted = set_profile_capability slot.binding.role true (update_slot i mark counted) in
    let failed =
      (Client.fail_discovery p w.hog.ctx.conn_handle Reason.hid_subscribe_failed (pos err)
        counted).1 in
    either-HogValid (err == 0) (finalize_subscription_phase p noted)
      (if is_keyboard slot then failed else finalize_subscription_phase p counted)
      (λ fine. finalize-HogValid p noted (
        capability-HogValid slot.binding.role (update_slot i mark counted)
          (update_slot-HogValid i mark counted v)))
      (λ refused.
        either-HogValid (is_keyboard slot) failed (finalize_subscription_phase p counted)
          (λ keyboard.
            fail_discovery-HogValid p w.hog.ctx.conn_handle Reason.hid_subscribe_failed (pos err)
              counted v)
          (λ other. finalize-HogValid p counted v))

pub subscribed-HogValid :
    {k : ℕ} (p : Platform) (conn err i : ℕ) (w : World)
    → HogValid k w
    → HogValid k (on_report_subscribed p conn err i w)
unfolding on_report_subscribed subscribed_slot
subscribed-HogValid {k} p conn err i w v =
    either-HogValid (conn_matches conn w)
      (subscribed_slot p i (find_slot_by_subscribe_params (some i) w) err w) w
      (λ matches. found_case (find_slot_by_subscribe_params (some i) w)) (λ other. v)
  where
    found_case : (slot : Option ReportSlot) → HogValid k (subscribed_slot p i slot err w)
    found_case none = v
    found_case (some slot) = ended-HogValid p i slot err w v

note_role-HogValid :
    {k : ℕ} (role : Role) (w : World) → HogValid k w → HogValid k (note_role role w)
unfolding note_role set_mouse_resolution
note_role-HogValid role w v =
    let enabled = set_profile_capability role true w in
    let is_known = same_role role Role.led_output || same_role role Role.mouse_feature in
    let known = if is_known then enabled else w in
    let kept =
      either-HogValid is_known enabled w (λ e. capability-HogValid role w v) (λ other. v) in
    either-HogValid (same_role role Role.mouse_feature && not w.hog.mouse_resolution_from_host)
      (set_mouse_resolution resolution_max resolution_max known) known (λ e. kept) (λ other. kept)

pub reference-HogValid :
    {k : ℕ} (p : Platform) (conn err : ℕ) (payload : Option (List ℕ)) (w : World)
    → HogValid k w
    → HogValid k (on_report_ref_read p conn err payload w).1
unfolding on_report_ref_read reference_read take_reference
reference-HogValid {k} p conn err payload w v =
    either-HogValid (conn_matches conn w) (reference_read p (current_report_slot w) err payload w) w
      (λ matches. found_case (current_report_slot w) payload) (λ other. v)
  where
    found_case :
        (slot : Option ReportSlot) (payload : Option (List ℕ))
        → HogValid k (reference_read p slot err payload w)
    found_case none payload = v
    found_case (some slot) none = v
    found_case (some slot) (some payload) =
        let taken = take_reference (get_or payload 0 0) (get_or payload 1 0) w in
        either-HogValid (not (err == 0) || ltb (length payload) 2) (advance_after_report_ref p w).1
          (advance_after_report_ref p taken).1 (λ failed. advance_after_report_ref-HogValid p w v)
          (λ read. advance_after_report_ref-HogValid p taken (
            note_role-HogValid _ _ (
              update_slot-HogValid w.hog.ctx.current_report_index
                (identify (get_or payload 0 0) (get_or payload 1 0)) w v)))
