-- ===== src/Hog/Mouse.antt =====
-- The mouse payloads of main/src/hog_client.c: their two layouts, the merging of movements, and the
-- resolution multipliers. Payloads are lists of bytes; the functions are never passed NULL.
pub mod Codec
pub mod Merge
use zmk_usb_bridge.Prelude.{
  ℕ, ◌+◌, ◌*◌, ◌/◌, ◌%◌, Bool, true, false, ◌&&◌, ◌||◌, List, [], ◌∷◌, Option, none, some, ◌==◌,
  if◌then◌else◌, get_or, min,
}
use zmk_usb_bridge.Prelude.Int.{ℤ, pos, negsuc, ◌+ℤ◌}
use zmk_usb_bridge.Bytes.{to_u16, to_u8, signed16, signed8, le16, low_byte, high_byte, clamp}
use zmk_usb_bridge.Types.{Status, ok, size_mismatch, Role, MouseBody, MouseResolution}

abbrev pub compact_len : ℕ
compact_len = 5

abbrev pub extended_len : ℕ
extended_len = 9

abbrev pub feature_len : ℕ
feature_len = 1

abbrev pub resolution_max : ℕ
resolution_max = 15

-- `zmk_usb_bridge_hog_input_event_t`; the payload is its first `payload_len` bytes.
pub record InputEvent : Type 0 where
  pub role : Role
  pub payload : List ℕ
  pub payload_len : ℕ

unfoldable pub saturate_mouse_delta_i16 : ℤ → ℤ
unfolding clamp
saturate_mouse_delta_i16 value = clamp value (negsuc 32767) (pos 32767)

unfoldable pub saturate_mouse_delta_i8 : ℤ → ℤ
unfolding clamp
saturate_mouse_delta_i8 value = clamp value (negsuc 127) (pos 127)

unfoldable pub clamp_mouse_resolution : ℕ → ℕ
clamp_mouse_resolution value = min value resolution_max

-- The status, and what is written through the pointer if it is OK. The payload is one byte.
unfoldable pub decode_mouse_feature_payload : List ℕ → ℕ → Status × Option MouseResolution
unfolding clamp_mouse_resolution
decode_mouse_feature_payload payload len =
    if len == feature_len
    then (
      ok,
      some (record {
        wheel = clamp_mouse_resolution (get_or payload 0 0 % 16);
        hor_wheel = clamp_mouse_resolution (get_or payload 0 0 / 16 % 16);
      }),
    )
    else (size_mismatch, none)

unfoldable pub encode_mouse_feature_payload : MouseResolution → List ℕ
unfolding clamp_mouse_resolution
encode_mouse_feature_payload r =
    (clamp_mouse_resolution r.hor_wheel * 16 + clamp_mouse_resolution r.wheel) ∷ []

abbrev pub mouse_payload_len_supported : ℕ → Bool
mouse_payload_len_supported len = len == compact_len || len == extended_len

abbrev pub is_mouse_role : Role → Bool
is_mouse_role Role.mouse_input = true
is_mouse_role _ = false

unfoldable pub event_is_mouse_input : InputEvent → Bool
event_is_mouse_input e = is_mouse_role e.role && mouse_payload_len_supported e.payload_len

unfoldable pub compact_body : List ℕ → MouseBody
compact_body payload = record {
  buttons = get_or payload 0 0;
  dx = signed8 (get_or payload 1 0);
  dy = signed8 (get_or payload 2 0);
  scroll_y = signed8 (get_or payload 3 0);
  scroll_x = signed8 (get_or payload 4 0);
}

unfoldable pub extended_body : List ℕ → MouseBody
extended_body payload = record {
  buttons = get_or payload 0 0;
  dx = signed16 (le16 (get_or payload 1 0) (get_or payload 2 0));
  dy = signed16 (le16 (get_or payload 3 0) (get_or payload 4 0));
  scroll_y = signed16 (le16 (get_or payload 5 0) (get_or payload 6 0));
  scroll_x = signed16 (le16 (get_or payload 7 0) (get_or payload 8 0));
}

unfoldable pub decode_mouse_payload : List ℕ → ℕ → Status × Option MouseBody
decode_mouse_payload payload len =
    if len == compact_len
    then (ok, some (compact_body payload))
    else if len == extended_len
    then (ok, some (extended_body payload))
    else (size_mismatch, none)

unfoldable pub compact_bytes : MouseBody → List ℕ
compact_bytes m =
    m.buttons
    ∷ to_u8 (saturate_mouse_delta_i8 m.dx)
    ∷ to_u8 (saturate_mouse_delta_i8 m.dy)
    ∷ to_u8 (saturate_mouse_delta_i8 m.scroll_y)
    ∷ to_u8 (saturate_mouse_delta_i8 m.scroll_x)
    ∷ []

unfoldable pub extended_bytes : MouseBody → List ℕ
extended_bytes m =
    m.buttons
    ∷ low_byte (to_u16 m.dx)
    ∷ high_byte (to_u16 m.dx)
    ∷ low_byte (to_u16 m.dy)
    ∷ high_byte (to_u16 m.dy)
    ∷ low_byte (to_u16 m.scroll_y)
    ∷ high_byte (to_u16 m.scroll_y)
    ∷ low_byte (to_u16 m.scroll_x)
    ∷ high_byte (to_u16 m.scroll_x)
    ∷ []

-- The status, and the payload after it.
unfoldable pub encode_mouse_payload : MouseBody → List ℕ → ℕ → Status × List ℕ
encode_mouse_payload m payload len =
    if len == compact_len
    then (ok, compact_bytes m)
    else if len == extended_len
    then (ok, extended_bytes m)
    else (size_mismatch, payload)

unfoldable pub mouse_events_can_merge : InputEvent → InputEvent → Bool
unfolding event_is_mouse_input
mouse_events_can_merge event next =
    event_is_mouse_input event
    && event_is_mouse_input next
    && event.payload_len == next.payload_len
    && get_or event.payload 0 0 == get_or next.payload 0 0

-- The four saturated sums.
unfoldable pub add_mouse : MouseBody → MouseBody → MouseBody
add_mouse current next = record {
  buttons = current.buttons;
  dx = saturate_mouse_delta_i16 (current.dx +ℤ next.dx);
  dy = saturate_mouse_delta_i16 (current.dy +ℤ next.dy);
  scroll_y = saturate_mouse_delta_i16 (current.scroll_y +ℤ next.scroll_y);
  scroll_x = saturate_mouse_delta_i16 (current.scroll_x +ℤ next.scroll_x);
}

-- The event after it has taken the movement of the next one.
add_decoded : Option MouseBody → Option MouseBody → InputEvent → InputEvent
add_decoded none next e = e
add_decoded (some current) none e = e
add_decoded (some current) (some next) e = record e {
  payload = (encode_mouse_payload (add_mouse current next) e.payload e.payload_len).1;
}

unfoldable pub accumulate_mouse_event : InputEvent → InputEvent → InputEvent
unfolding add_decoded
accumulate_mouse_event event next =
    if mouse_events_can_merge event next
    then add_decoded (decode_mouse_payload event.payload event.payload_len).1
        (decode_mouse_payload next.payload next.payload_len).1 event
    else event

-- The loop over what the queue holds: the event, the event that could not be merged, and what is
-- left in the queue.
merge_loop : InputEvent → List InputEvent → InputEvent × Option InputEvent × List InputEvent
merge_loop event [] = (event, none, [])
merge_loop event (next ∷ queue) =
    let merged = merge_loop (accumulate_mouse_event event next) queue in
    if mouse_events_can_merge event next then merged else (event, some next, queue)

unfoldable pub merge_contiguous_mouse_events :
    InputEvent → List InputEvent → InputEvent × Option InputEvent × List InputEvent
unfolding merge_loop
merge_contiguous_mouse_events event queue =
    if event_is_mouse_input event then merge_loop event queue else (event, none, queue)
