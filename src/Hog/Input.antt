-- ===== src/Hog/Input.antt =====
-- The way of an input report through main/src/hog_client.c: from the notification into the queue, and
-- from the queue, merged, to `Bridge`. The kernel's queue is the list of the events it holds.
pub mod Drain
use zmk_usb_bridge.Prelude.{
  ℕ, zero, suc, Bool, true, false, not, ◌||◌, List, [], ◌∷◌, Option, none, some, ltb, length,
  if◌then◌else◌,
}
use zmk_usb_bridge.Types.{Status, ok, is_ok, Role, MouseBody}
use zmk_usb_bridge.World.{World, Platform, Op, ReportSlot, ReportBinding, invoke, input_put}
use zmk_usb_bridge.Bridge
use zmk_usb_bridge.Hog.Mouse.{InputEvent, decode_mouse_payload, merge_contiguous_mouse_events}
use zmk_usb_bridge.Hog.Slots.{
  conn_matches, find_slot_by_subscribe_params, update_slot, set_profile_capability,
}

-- A mouse body that was decoded, or the status of the failure.
bridge_decoded : Platform → Status × Option MouseBody → Op World
bridge_decoded p (status, none) w = (status, w)
bridge_decoded p (status, some mouse) w =
    Bridge.handle_input p Role.mouse_input (some (Bridge.bytes_of_mouse mouse)) Bridge.mouse_size w

unfoldable pub bridge_queued_input : Platform → Role → List ℕ → ℕ → Op World
unfolding bridge_decoded
bridge_queued_input p Role.keyboard_input payload len w =
    Bridge.handle_input p Role.keyboard_input (some payload) len w
bridge_queued_input p Role.consumer_input payload len w =
    Bridge.handle_input p Role.consumer_input (some payload) len w
bridge_queued_input p Role.mouse_input payload len w =
    bridge_decoded p (decode_mouse_payload payload len) w
bridge_queued_input p Role.unknown payload len w = (ok, w)
bridge_queued_input p Role.mouse_feature payload len w = (ok, w)
bridge_queued_input p Role.led_output payload len w = (ok, w)

-- The body of the loop of `hog_input_task` for the event that was taken: what is held back, what
-- is left in the queue, and the state. The status is only logged.
unfoldable pub input_turn :
    Platform → InputEvent → List InputEvent → World → Option InputEvent × List InputEvent × World
input_turn p event queue w =
    let (merged, deferred, rest) = merge_contiguous_mouse_events event queue in
    (deferred, rest, (bridge_queued_input p merged.role merged.payload merged.payload_len w).1)

-- The loop of `hog_input_task`, until it waits for the queue or the fuel is used up.
unfoldable pub input_task :
    Platform
    → ℕ
    → Option InputEvent
    → List InputEvent
    → World
    → Option InputEvent × List InputEvent × World
input_task p zero deferred queue w = (deferred, queue, w)
input_task p (suc fuel) none [] w = (none, [], w)
input_task p (suc fuel) none (event ∷ queue) w =
    let (deferred, rest, after) = input_turn p event queue w in
    input_task p fuel deferred rest after
input_task p (suc fuel) (some event) queue w =
    let (deferred, rest, after) = input_turn p event queue w in
    input_task p fuel deferred rest after

-- The array of a queued event.
abbrev pub payload_capacity : ℕ
payload_capacity = 16

-- Whether the subscription goes on, and the state. `data` is NULL if it is `none`.
notify_slot : Platform → ℕ → ReportSlot → Option (List ℕ) → World → Bool × World
notify_slot p i slot none w = (
  false,
  set_profile_capability slot.binding.role false
      (update_slot i (λ s. record s { binding = record (s.binding) { subscribed = false } }) w),
)
notify_slot p i slot (some payload) w =
    if ltb payload_capacity (length payload)
    then (true, w)
    else (true, (invoke p (input_put slot.binding.role payload) w).1)

notify_found : Platform → ℕ → Option ReportSlot → Option (List ℕ) → World → Bool × World
unfolding notify_slot
notify_found p i none payload w = (false, w)
notify_found p i (some slot) payload w = notify_slot p i slot payload w

unfoldable pub on_report_notify : Platform → ℕ → Option ℕ → Option (List ℕ) → World → Bool × World
unfolding notify_found
on_report_notify p conn none payload w = (false, w)
on_report_notify p conn (some i) payload w =
    if conn_matches conn w
    then notify_found p i (find_slot_by_subscribe_params (some i) w) payload w
    else (false, w)
