-- ===== src/Hog/Slots.antt =====
-- The report slots and the profile of main/src/hog_client.c. A pointer to a slot is its index, and
-- a pointer to a slot's subscription parameters is the slot's index too.
use zmk_usb_bridge.Prelude.{
  ℕ, zero, suc, ◌+◌, Bool, true, false, ◌&&◌, List, [], ◌∷◌, Option, none, some, ◌==◌, ltb, leb,
  if◌then◌else◌, get_elem?, set,
}
use zmk_usb_bridge.Types.{Role, HogProfile, MouseResolution}
use zmk_usb_bridge.World.{World, HogContext, ReportSlot}
use zmk_usb_bridge.Hog.Mouse.{clamp_mouse_resolution}

abbrev pub with_ctx : (HogContext → HogContext) → World → World
with_ctx f w = record w { hog = record (w.hog) { ctx = f w.hog.ctx } }

abbrev pub same_role : Role → Role → Bool
same_role Role.unknown Role.unknown = true
same_role Role.keyboard_input Role.keyboard_input = true
same_role Role.consumer_input Role.consumer_input = true
same_role Role.mouse_input Role.mouse_input = true
same_role Role.mouse_feature Role.mouse_feature = true
same_role Role.led_output Role.led_output = true
same_role _ _ = false

-- The loop over the first `count` slots.
slot_by_role : Role → ℕ → List ReportSlot → Option ReportSlot
slot_by_role role zero slots = none
slot_by_role role (suc count) [] = none
slot_by_role role (suc count) (s ∷ slots) =
    if s.in_use && same_role s.binding.role role then some s else slot_by_role role count slots

unfoldable pub find_slot_by_role : Role → World → Option ReportSlot
unfolding slot_by_role
find_slot_by_role role w = slot_by_role role w.hog.ctx.report_count w.hog.ctx.reports

-- `conn_matches`.
abbrev pub conn_matches : ℕ → World → Bool
conn_matches conn w = elim w.hog.ctx.conn [ none ↦ false | some c ↦ conn == c ]

unfoldable pub current_report_slot : World → Option ReportSlot
current_report_slot w =
    if leb w.hog.ctx.report_count w.hog.ctx.current_report_index
    then none
    else get_elem? w.hog.ctx.reports w.hog.ctx.current_report_index

-- A write to the slot at an index.
abbrev pub update_slot : ℕ → (ReportSlot → ReportSlot) → World → World
update_slot i f w = elim (get_elem? w.hog.ctx.reports i) [
  | none ↦ w
  | some slot ↦ with_ctx (λ c. record c { reports = set c.reports i (f slot) }) w
]

unfoldable pub profile_with : Role → Bool → HogProfile → HogProfile
profile_with Role.keyboard_input enabled p = record p { has_keyboard_input = enabled }
profile_with Role.consumer_input enabled p = record p { has_consumer_input = enabled }
profile_with Role.mouse_input enabled p = record p { has_mouse_input = enabled }
profile_with Role.mouse_feature enabled p = record p { has_mouse_feature = enabled }
profile_with Role.led_output enabled p = record p { has_led_output = enabled }
profile_with Role.unknown enabled p = p

unfoldable pub set_profile_capability : Role → Bool → World → World
unfolding profile_with
set_profile_capability role enabled w = record w {
  hog = record (w.hog) { profile = profile_with role enabled w.hog.profile };
}

unfoldable pub set_mouse_resolution : ℕ → ℕ → World → World
unfolding clamp_mouse_resolution
set_mouse_resolution wheel hor_wheel w = record w {
  hog = record (w.hog) {
    mouse_resolution = record {
      wheel = clamp_mouse_resolution wheel;
      hor_wheel = clamp_mouse_resolution hor_wheel;
    };
  };
}

-- The values of `zmk_usb_bridge_report_type_t`.
abbrev pub type_input : ℕ
type_input = 1

abbrev pub type_output : ℕ
type_output = 2

abbrev pub type_feature : ℕ
type_feature = 3

unfoldable pub role_from_report_ref : ℕ → ℕ → Role
role_from_report_ref report_id report_type =
    if report_type == type_input
    then if report_id == 1
      then Role.keyboard_input
      else if report_id == 2
      then Role.consumer_input
      else if report_id == 3
      then Role.mouse_input
      else Role.unknown
    else if report_type == type_output && report_id == 1
    then Role.led_output
    else if report_type == type_feature && report_id == 3
    then Role.mouse_feature
    else Role.unknown

unfoldable pub find_slot_by_subscribe_params : Option ℕ → World → Option ReportSlot
find_slot_by_subscribe_params none w = none
find_slot_by_subscribe_params (some i) w =
    if ltb i w.hog.ctx.report_count then get_elem? w.hog.ctx.reports i else none

abbrev pub flag : Bool → ℕ → ℕ
flag b value = if b then value else 0

-- The bits are distinct, so `|=` is a sum.
unfoldable pub capability_flags : World → ℕ
capability_flags w =
    flag w.hog.profile.has_keyboard_input 1
    + flag w.hog.profile.has_consumer_input 2
    + flag w.hog.profile.has_mouse_input 4
    + flag w.hog.profile.has_mouse_feature 8
    + flag w.hog.profile.has_led_output 16

unfoldable pub client_ready : World → Bool
client_ready w = w.hog.profile.has_keyboard_input

unfoldable pub mouse_resolution : World → MouseResolution
mouse_resolution w = w.hog.mouse_resolution

unfoldable pub discovery_active : ℕ → World → Bool
discovery_active conn_handle w = w.hog.ctx.discovery_active && w.hog.ctx.conn_handle == conn_handle
