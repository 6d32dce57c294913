-- ===== src/Hog/Mouse/Codec.antt =====
-- Round trips of the payloads of main/src/hog_client.c.
use zmk_usb_bridge.Prelude.{
  ℕ, ◌≡◌, ◌<◌, refl, ◌⊎◌, inl, inr, true, List, [], ◌∷◌, none, some, arith, ◌==◌, if◌then◌else◌,
  min, ap, Bool-cases, ◌∙◌,
}
use zmk_usb_bridge.Prelude.Int.{ℤ}
use zmk_usb_bridge.Bytes.{
  to_u16, to_u8, signed16, signed8, le16, low_byte, high_byte, IsI16, IsI8, signed16-to_u16,
  signed8-to_u8, le16-bytes, to_u16-lt,
}
use zmk_usb_bridge.Types.{ok, size_mismatch, MouseBody, MouseResolution}
use zmk_usb_bridge.Bridge.{IsMouse}
use zmk_usb_bridge.Hog.Mouse.{
  saturate_mouse_delta_i16, saturate_mouse_delta_i8, decode_mouse_feature_payload,
  encode_mouse_feature_payload, compact_body, extended_body, compact_bytes, extended_bytes,
  decode_mouse_payload, encode_mouse_payload, mouse_payload_len_supported, compact_len,
  extended_len,
}

pub saturate_byte-IsI8 : (a : ℤ) → IsI8 (saturate_mouse_delta_i8 a)
unfolding saturate_mouse_delta_i8
saturate_byte-IsI8 a = ground arith

pub saturate_word-IsI16 : (a : ℤ) → IsI16 (saturate_mouse_delta_i16 a)
unfolding saturate_mouse_delta_i16
saturate_word-IsI16 a = ground arith

pub saturate_byte-fixes : (a : ℤ) → IsI8 a → saturate_mouse_delta_i8 a ≡ a
unfolding saturate_mouse_delta_i8
saturate_byte-fixes a h = ground arith

pub saturate_word-fixes : (a : ℤ) → IsI16 a → saturate_mouse_delta_i16 a ≡ a
unfolding saturate_mouse_delta_i16
saturate_word-fixes a h = ground arith

byte_round_trip : (a : ℤ) → signed8 (to_u8 (saturate_mouse_delta_i8 a)) ≡ saturate_mouse_delta_i8 a
byte_round_trip a = signed8-to_u8 (saturate_mouse_delta_i8 a) (saturate_byte-IsI8 a)

word_round_trip :
    (a : ℤ) → IsI16 a → signed16 (le16 (low_byte (to_u16 a)) (high_byte (to_u16 a))) ≡ a
word_round_trip a h = ap signed16 (le16-bytes (to_u16 a) (to_u16-lt a)) ∙ signed16-to_u16 a h

-- What a layout can hold of a body: the extended one all, the compact one the movements cut to a
-- signed byte.
unfoldable pub held : ℕ → MouseBody → MouseBody
held len m =
    if len == compact_len
    then record {
      buttons = m.buttons;
      dx = saturate_mouse_delta_i8 m.dx;
      dy = saturate_mouse_delta_i8 m.dy;
      scroll_y = saturate_mouse_delta_i8 m.scroll_y;
      scroll_x = saturate_mouse_delta_i8 m.scroll_x;
    }
    else m

pub decode-compact : (m : MouseBody) → compact_body (compact_bytes m) ≡ held 5 m
unfolding compact_body compact_bytes held
decode-compact m = cc (
  byte_round_trip m.dx,
  byte_round_trip m.dy,
  byte_round_trip m.scroll_y,
  byte_round_trip m.scroll_x,
)

pub decode-extended : (m : MouseBody) → IsMouse m → extended_body (extended_bytes m) ≡ held 9 m
unfolding extended_body extended_bytes held
decode-extended m h = cc (
  word_round_trip m.dx h.dx,
  word_round_trip m.dy h.dy,
  word_round_trip m.scroll_y h.scroll_y,
  word_round_trip m.scroll_x h.scroll_x,
)

pub supported_cases :
    (len : ℕ) → mouse_payload_len_supported len ≡ true → (len ≡ compact_len) ⊎ (len ≡ extended_len)
supported_cases len h = ground arith

-- A mouse body of 16-bit movements that is encoded in either layout is decoded to itself, with the
-- movements cut to a signed byte in the compact one; any other length is refused by both sides and
-- leaves the payload alone.
pub decode-encode_mouse :
    (m : MouseBody) (payload : List ℕ) (len : ℕ)
    → IsMouse m
    → let (status, bytes) = encode_mouse_payload m payload len in
      let supported = mouse_payload_len_supported len in
      (status ≡ (if supported then ok else size_mismatch))
      × (decode_mouse_payload bytes len
          ≡ (if supported then (ok, some (held len m)) else (size_mismatch, none)))
      × ((supported ≡ true) ⊎ (bytes ≡ payload))
unfolding encode_mouse_payload decode_mouse_payload
decode-encode_mouse m payload len h = elim (Bool-cases (mouse_payload_len_supported len)) [
  | inl s ↦ elim (supported_cases len s) [
    | inl e ↦ rw e (refl, ap (λ b. (ok, some b)) (decode-compact m), inl refl)
    | inr e ↦ rw e (refl, ap (λ b. (ok, some b)) (decode-extended m h), inl refl)
  ]
  | inr s ↦ ground arith
]

-- The resolution multipliers fit the four bits each has in the payload: what is encoded for the
-- keyboard is decoded to the values cut to 15.
pub decode-encode_feature :
    (r : MouseResolution)
    → decode_mouse_feature_payload (encode_mouse_feature_payload r) 1
      ≡ (ok, some (record { wheel = min r.wheel 15; hor_wheel = min r.hor_wheel 15 }))
unfolding decode_mouse_feature_payload encode_mouse_feature_payload
decode-encode_feature r = ground arith

-- Whatever resolution one byte from the keyboard is decoded to is encoded as that byte.
pub encode-decode_feature :
    (b : ℕ) (s : MouseResolution)
    → b < 256
    → decode_mouse_feature_payload (b ∷ []) 1 ≡ (ok, some s)
    → encode_mouse_feature_payload s ≡ b ∷ []
unfolding decode_mouse_feature_payload encode_mouse_feature_payload
encode-decode_feature b s h e = ground arith
