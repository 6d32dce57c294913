-- ===== src/Examples/HogRuns.antt =====
-- Runs of the input reports.
use zmk_usb_bridge.Prelude.{
  ℕ, ◌≡◌, true, refl, true, List, [], ◌∷◌, ◌++◌, some, none, map, arith, ◌⊎◌,
}
use mathlib.Core.List.{foldl}
use zmk_usb_bridge.Prelude.Int.{pos, negsuc}
use zmk_usb_bridge.Types.{ok, Role, MouseBody}
use zmk_usb_bridge.Bridge.{IsMouse}
use zmk_usb_bridge.Hog.Mouse.{
  InputEvent, decode_mouse_payload, encode_mouse_payload, merge_contiguous_mouse_events,
  event_is_mouse_input,
}
use zmk_usb_bridge.Hog.Mouse.Codec.{held, decode-encode_mouse}
use zmk_usb_bridge.Hog.Mouse.Merge.{
  take_mergeable, remaining, body_of, add_held, merge_contiguous_mouse_events_lem,
}
use zmk_usb_bridge.Hog.Input.{input_task}
use zmk_usb_bridge.Hog.Input.Drain.{Coalesced, bridge_all, input_task-drains}
use zmk_usb_bridge.Examples.{working, world}

abbrev far : MouseBody
far = record { buttons = 1; dx = pos 300; dy = negsuc 20; scroll_y = pos 0; scroll_x = pos 0 }

far-IsMouse : IsMouse far
far-IsMouse = ground arith

decode-encode_mouse_example :
    let (status, bytes) = encode_mouse_payload far [] 5 in
    (status ≡ ok)
    × (decode_mouse_payload bytes 5 ≡ (ok, some (held 5 far)))
    × ((true ≡ true) ⊎ (bytes ≡ []))
decode-encode_mouse_example = decode-encode_mouse far [] 5 far-IsMouse

abbrev move : ℕ → InputEvent
move dx = record { role = Role.mouse_input; payload = 0 ∷ dx ∷ 0 ∷ 0 ∷ 0 ∷ []; payload_len = 5 }

abbrev key : InputEvent
key = record {
  role = Role.keyboard_input;
  payload = 0 ∷ 0 ∷ 4 ∷ 0 ∷ 0 ∷ 0 ∷ 0 ∷ 0 ∷ [];
  payload_len = 8;
}

abbrev pending : List InputEvent
pending = move 20 ∷ move 30 ∷ key ∷ move 40 ∷ []

merge_contiguous_mouse_events_lem_example :
    let (merged, deferred, rest) = merge_contiguous_mouse_events (move 10) pending in
    let taken = take_mergeable (move 10) pending in
    (taken ++ remaining deferred rest ≡ pending)
    × (merged.role ≡ Role.mouse_input)
    × (merged.payload_len ≡ 5)
    × (body_of merged ≡ foldl (add_held 5) (body_of (move 10)) (map body_of taken))
merge_contiguous_mouse_events_lem_example =
    merge_contiguous_mouse_events_lem (move 10) pending (unfold event_is_mouse_input in refl)

input_task-drains_example :
    (out : List InputEvent) × Coalesced (key ∷ pending) out
    × (input_task working 5 (some key) pending world ≡ (none, [], bridge_all working out world))
unfolding remaining
input_task-drains_example = input_task-drains working 5 (some key) pending world (omega arith)
