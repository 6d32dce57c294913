-- ===== src/Bridge.antt =====
-- main/src/bridge.c: the input bodies between the Bluetooth side and the reports of `Usb`. Each
-- function runs under a mutex. A payload is the bytes behind the pointer; a mouse body is passed as
-- the bytes of its structure, in the layout of the target: one byte, one byte of padding, and four
-- 16-bit words, low byte first.
pub mod Gate
use zmk_usb_bridge.Prelude.{
  ℕ, ◌+◌, ◌≡◌, refl, ap, ◌∙◌, Bool, true, false, not, List, [], ◌∷◌, Option, none, some, arith,
  ◌==◌, if◌then◌else◌, length, get_or, replicate,
}
use zmk_usb_bridge.Prelude.Int.{ℤ, pos}
use zmk_usb_bridge.Bytes.{
  to_u16, signed16, le16, low_byte, high_byte, IsI16, signed16-to_u16, le16-bytes, to_u16-lt,
}
use zmk_usb_bridge.Types.{
  Status, ok, invalid_argument, size_mismatch, Role, KeyboardBody, ConsumerBody, MouseBody,
}
use zmk_usb_bridge.World.{World, BridgeState, Platform, Op}
use zmk_usb_bridge.Usb

abbrev pub empty_keyboard : KeyboardBody
empty_keyboard = record { modifiers = 0; reserved = 0; keys = replicate 6 0 }

abbrev pub empty_consumer : ConsumerBody
empty_consumer = record { usage = 0 }

abbrev pub empty_mouse : MouseBody
empty_mouse = record { buttons = 0; dx = pos 0; dy = pos 0; scroll_y = pos 0; scroll_x = pos 0 }

-- `reset_state_locked`.
abbrev pub reset_state_locked : World → World
reset_state_locked w = record w {
  bridge = record (w.bridge) {
    keyboard = empty_keyboard;
    consumer = empty_consumer;
    mouse = empty_mouse;
  };
}

abbrev pub set_active : Bool → World → World
set_active b w = record w { bridge = record (w.bridge) { input_active = b } }

unfoldable pub init : Op World
init w = (ok, set_active false (reset_state_locked w))

unfoldable pub reset_state : Op World
reset_state w = (ok, reset_state_locked w)

unfoldable pub set_input_active : Bool → Op World
set_input_active active w =
    let after = set_active active w in (ok, if active then after else reset_state_locked after)

unfoldable pub release_all : Platform → Op World
release_all p w = Usb.release_all p (reset_state_locked (set_active false w))

-- `memcpy` into the three structures. A list of the right length fills them.
abbrev pub keyboard_of_bytes : List ℕ → KeyboardBody
keyboard_of_bytes (modifiers ∷ reserved ∷ keys) = record {
  modifiers = modifiers;
  reserved = reserved;
  keys = keys;
}
keyboard_of_bytes _ = empty_keyboard

abbrev pub consumer_of_bytes : List ℕ → ConsumerBody
consumer_of_bytes (low ∷ high ∷ []) = record { usage = le16 low high }
consumer_of_bytes _ = empty_consumer

unfoldable pub mouse_of_bytes : List ℕ → MouseBody
unfolding signed16
mouse_of_bytes bytes = record {
  buttons = get_or bytes 0 0;
  dx = signed16 (le16 (get_or bytes 2 0) (get_or bytes 3 0));
  dy = signed16 (le16 (get_or bytes 4 0) (get_or bytes 5 0));
  scroll_y = signed16 (le16 (get_or bytes 6 0) (get_or bytes 7 0));
  scroll_x = signed16 (le16 (get_or bytes 8 0) (get_or bytes 9 0));
}

-- The bytes of a mouse body in memory.
unfoldable pub bytes_of_mouse : MouseBody → List ℕ
unfolding to_u16
bytes_of_mouse m =
    m.buttons
    ∷ 0
    ∷ low_byte (to_u16 m.dx)
    ∷ high_byte (to_u16 m.dx)
    ∷ low_byte (to_u16 m.dy)
    ∷ high_byte (to_u16 m.dy)
    ∷ low_byte (to_u16 m.scroll_y)
    ∷ high_byte (to_u16 m.scroll_y)
    ∷ low_byte (to_u16 m.scroll_x)
    ∷ high_byte (to_u16 m.scroll_x)
    ∷ []

-- The sizes of the three structures.
abbrev pub keyboard_size : ℕ
keyboard_size = 8

abbrev pub consumer_size : ℕ
consumer_size = 2

abbrev pub mouse_size : ℕ
mouse_size = 10

bridge_keyboard : Platform → KeyboardBody → Op World
bridge_keyboard p body w =
    Usb.send_keyboard p (some body) (record w { bridge = record (w.bridge) { keyboard = body } })

bridge_consumer : Platform → ConsumerBody → Op World
bridge_consumer p body w =
    Usb.send_consumer p (some body) (record w { bridge = record (w.bridge) { consumer = body } })

bridge_mouse : Platform → MouseBody → Op World
bridge_mouse p body w =
    Usb.send_mouse p (some body) (record w { bridge = record (w.bridge) { mouse = body } })

-- The `switch` on the role.
unfoldable pub dispatch : Platform → Role → List ℕ → ℕ → Op World
unfolding bridge_keyboard bridge_consumer bridge_mouse mouse_of_bytes
dispatch p Role.keyboard_input payload len w =
    if len == keyboard_size
    then bridge_keyboard p (keyboard_of_bytes payload) w
    else (size_mismatch, w)
dispatch p Role.consumer_input payload len w =
    if len == consumer_size
    then bridge_consumer p (consumer_of_bytes payload) w
    else (size_mismatch, w)
dispatch p Role.mouse_input payload len w =
    if len == mouse_size then bridge_mouse p (mouse_of_bytes payload) w else (size_mismatch, w)
dispatch p Role.unknown payload len w = (ok, w)
dispatch p Role.mouse_feature payload len w = (ok, w)
dispatch p Role.led_output payload len w = (ok, w)

unfoldable pub handle_input : Platform → Role → Option (List ℕ) → ℕ → Op World
unfolding dispatch
handle_input p role none len w = (invalid_argument, w)
handle_input p role (some payload) len w =
    if w.bridge.input_active then dispatch p role payload len w else (ok, w)

pub record IsMouse (m : MouseBody) : Type 0 where
  pub dx : IsI16 m.dx
  pub dy : IsI16 m.dy
  pub scroll_y : IsI16 m.scroll_y
  pub scroll_x : IsI16 m.scroll_x

word_round_trip :
    (a : ℤ) → IsI16 a → signed16 (le16 (low_byte (to_u16 a)) (high_byte (to_u16 a))) ≡ a
word_round_trip a h = ap signed16 (le16-bytes (to_u16 a) (to_u16-lt a)) ∙ signed16-to_u16 a h

-- A mouse body of 16-bit movements that is passed as memory arrives unchanged.
pub mouse_of_bytes-bytes_of_mouse :
    (m : MouseBody) → IsMouse m → mouse_of_bytes (bytes_of_mouse m) ≡ m
unfolding mouse_of_bytes bytes_of_mouse
mouse_of_bytes-bytes_of_mouse m h = cc (
  word_round_trip m.dx h.dx,
  word_round_trip m.dy h.dy,
  word_round_trip m.scroll_y h.scroll_y,
  word_round_trip m.scroll_x h.scroll_x,
)
