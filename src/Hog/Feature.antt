-- ===== src/Hog/Feature.antt =====
-- The resolution of the mouse wheel in main/src/hog_client.c: what the USB host sets, and how it is
-- written to the keyboard's feature report.
use zmk_usb_bridge.Prelude.{ℕ, ◌/◌, ◌%◌, Bool, true, Option, none, some, ◌==◌, if◌then◌else◌}
use zmk_usb_bridge.Types.{ok, invalid_argument, Role, MouseResolution}
use zmk_usb_bridge.World.{World, Op, ReportSlot, gatt_write, log}
use zmk_usb_bridge.Hog.Mouse.{encode_mouse_feature_payload}
use zmk_usb_bridge.Hog.Slots.{find_slot_by_role, set_mouse_resolution}

-- `BT_GATT_CHRC_READ`, `..._WRITE_WITHOUT_RESP` and `..._NOTIFY`, as places of the binary number.
abbrev pub can_read : ℕ → Bool
can_read properties = properties / 2 % 2 == 1

abbrev pub can_write_without_response : ℕ → Bool
can_write_without_response properties = properties / 4 % 2 == 1

abbrev pub can_notify : ℕ → Bool
can_notify properties = properties / 16 % 2 == 1

unfoldable pub write_slot : Option ℕ → Option ReportSlot → MouseResolution → World → World
write_slot none slot resolution w = w
write_slot (some conn) none resolution w = w
write_slot (some conn) (some slot) resolution w =
    if can_write_without_response slot.properties
    then log (gatt_write conn slot.binding.value_handle (encode_mouse_feature_payload resolution)) w
    else w

-- A failed write is only logged.
unfoldable pub write_mouse_feature_to_peer : World → World
unfolding write_slot
write_mouse_feature_to_peer w =
    write_slot w.hog.ctx.conn (find_slot_by_role Role.mouse_feature w) w.hog.mouse_resolution w

-- `zmk_usb_bridge_hog_client_set_mouse_resolution`, which the USB side calls; the pointer may be NULL.
unfoldable pub set_host_mouse_resolution : Option MouseResolution → Op World
set_host_mouse_resolution none w = (invalid_argument, w)
set_host_mouse_resolution (some resolution) w =
    let stored = set_mouse_resolution resolution.wheel resolution.hor_wheel w in
    (
      ok,
      write_mouse_feature_to_peer
          (record stored { hog = record (stored.hog) { mouse_resolution_from_host = true } }),
    )
