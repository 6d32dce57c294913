-- ===== src/Usb/Control.antt =====
-- The callbacks of main/src/usb_bridge.c for the host's requests on the mouse feature report, which
-- holds the resolution of the wheel.
pub mod RoundTrip
use zmk_usb_bridge.Prelude.{
  ℕ, ◌+◌, ◌*◌, ◌/◌, ◌%◌, ◌≤◌, ◌<◌, ◌≡◌, ◌≢◌, ◌⊎◌, refl, ap, inl, inr, Bool, true, false, not, ◌&&◌,
  ◌||◌, List, [], ◌∷◌, Option, none, some, arith, ◌==◌, min, get_or, if◌then◌else◌,
}
use zmk_usb_bridge.Prelude.Int.{ℤ, pos, negsuc}
use zmk_usb_bridge.Types.{is_ok, MouseResolution}
use zmk_usb_bridge.World.{World, Op}
use zmk_usb_bridge.Usb.{mouse_report_id, einval}
use zmk_usb_bridge.Hog.Mouse.{clamp_mouse_resolution}
use zmk_usb_bridge.Hog.Slots.{mouse_resolution, set_mouse_resolution}
use zmk_usb_bridge.Hog.Feature.{set_host_mouse_resolution, write_mouse_feature_to_peer}

-- The resolution is a struct on the stack; the pointer to it is never NULL.
unfoldable pub encode_mouse_resolution : MouseResolution → ℕ
encode_mouse_resolution r = min r.hor_wheel 15 * 16 + min r.wheel 15

-- The resolution byte of a report.
unfoldable pub decode_mouse_feature_report : ℕ → MouseResolution
decode_mouse_feature_report resolution = record {
  wheel = resolution % 16;
  hor_wheel = resolution / 16 % 16;
}

-- `-ENOTSUP`, with newlib's number.
abbrev pub enotsup : ℤ
enotsup = negsuc 133

-- `-EIO`.
abbrev pub eio : ℤ
eio = negsuc 4

-- `ZMK_USB_BRIDGE_HID_REPORT_TYPE_FEATURE`: the high byte of the word is 3.
abbrev pub is_feature : ℕ → Bool
is_feature value = value / 256 == 3

abbrev pub is_mouse_feature : ℕ → Bool
is_mouse_feature value = is_feature value && value % 256 == mouse_report_id

-- The result, and the report if the result is 0. `value` is `setup->wValue`.
unfoldable pub get_report_cb : ℕ → World → ℤ × List ℕ
unfolding encode_mouse_resolution
get_report_cb value w =
    if is_mouse_feature value
    then (pos 0, mouse_report_id ∷ encode_mouse_resolution (mouse_resolution w) ∷ [])
    else (enotsup, [])

abbrev pub feature_report_size : ℕ
feature_report_size = 2

-- `len` is what `*len` holds, the number of bytes of the report.
unfoldable pub set_report_cb : ℕ → ℕ → List ℕ → Op World
unfolding decode_mouse_feature_report
set_report_cb value len report w =
    let (status, after) =
      set_host_mouse_resolution (some (decode_mouse_feature_report (get_or report 1 0))) w in
    if is_mouse_feature value
    then if len == feature_report_size
      then (if is_ok status then pos 0 else eio, after)
      else (einval, w)
    else (enotsup, w)
