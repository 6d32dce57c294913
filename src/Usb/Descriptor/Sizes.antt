-- ===== src/Usb/Descriptor/Sizes.antt =====
-- The reports of main/src/usb_bridge.c have the sizes that its descriptor declares.
use zmk_usb_bridge.Prelude.{ℕ, ◌+◌, ◌*◌, ◌≡◌, refl, List, length}
use zmk_usb_bridge.Types.{KeyboardBody, ConsumerBody, MouseBody}
use zmk_usb_bridge.Usb.{
  keyboard_report_id, consumer_report_id, mouse_report_id, keyboard_report, consumer_report,
  mouse_report, keyboard_release, consumer_release, mouse_release,
}
use zmk_usb_bridge.Usb.Control.{feature_report_size}
use zmk_usb_bridge.Usb.Descriptor.{Kind, hid_report_desc, report_bits, declared_bits}

-- A report has the declared bits behind the byte of its identifier.
abbrev pub Fills : List ℕ → Kind → ℕ → Type 0
Fills report kind id = 8 * length report ≡ 8 + declared_bits kind id

-- Every report that goes to the host, released or not, is exactly as long as the descriptor declares its
-- kind and identifier to be, and so is the feature report that the host may read and set. Conditions:
-- a keyboard's body has six keys.
pub reports_fill_descriptor :
    (keyboard : KeyboardBody) (consumer : ConsumerBody) (mouse : MouseBody)
    → length keyboard.keys ≡ 6
    → Fills (keyboard_report keyboard) Kind.of_input keyboard_report_id
      × Fills (consumer_report consumer) Kind.of_input consumer_report_id
      × Fills (mouse_report mouse) Kind.of_input mouse_report_id
      × Fills keyboard_release Kind.of_input keyboard_report_id
      × Fills consumer_release Kind.of_input consumer_report_id
      × Fills mouse_release Kind.of_input mouse_report_id
      × (8 * feature_report_size ≡ 8 + declared_bits Kind.of_feature mouse_report_id)
unfolding declared_bits report_bits hid_report_desc mouse_report
reports_fill_descriptor keyboard consumer mouse six =
    (rw six refl, refl, refl, refl, refl, refl, refl)
