-- ===== src/Bytes.antt =====
-- Machine integers of the reports: `int8_t` and `int16_t` as integers, their bit patterns as
-- numbers, and 16-bit words as two bytes, low byte first.
use zmk_usb_bridge.Prelude.{ℕ, ◌+◌, ◌-◌, ◌*◌, ◌/◌, ◌%◌, ◌≤◌, ◌<◌, ◌≡◌, arith, ltb, if◌then◌else◌}
use zmk_usb_bridge.Prelude.Int.{ℤ, pos, negsuc, ltb_ℤ, pos_part, neg_part}

-- `(uint16_t)value`.
unfoldable pub to_u16 : ℤ → ℕ
to_u16 (pos n) = n % 65536
to_u16 (negsuc n) = 65535 - n % 65536

-- `(uint8_t)value`.
unfoldable pub to_u8 : ℤ → ℕ
to_u8 (pos n) = n % 256
to_u8 (negsuc n) = 255 - n % 256

-- `(int16_t)pattern` of a 16-bit pattern, and `(int8_t)pattern` of a byte.
unfoldable pub signed16 : ℕ → ℤ
signed16 n = if ltb n 32768 then pos n else negsuc (65535 - n)

unfoldable pub signed8 : ℕ → ℤ
signed8 n = if ltb n 128 then pos n else negsuc (255 - n)

-- `sys_get_le16`, and the two bytes of `sys_put_le16`.
abbrev pub le16 : ℕ → ℕ → ℕ
le16 low high = low + 256 * high

abbrev pub low_byte : ℕ → ℕ
low_byte n = n % 256

abbrev pub high_byte : ℕ → ℕ
high_byte n = n / 256 % 256

-- `CLAMP(value, low, high)`.
unfoldable pub clamp : ℤ → ℤ → ℤ → ℤ
clamp value low high = if ltb_ℤ value low then low else if ltb_ℤ high value then high else value

-- The values of an `int16_t` and of an `int8_t`.
abbrev pub IsI16 : ℤ → Type 0
IsI16 a = (pos_part a ≤ 32767) × (neg_part a ≤ 32768)

abbrev pub IsI8 : ℤ → Type 0
IsI8 a = (pos_part a ≤ 127) × (neg_part a ≤ 128)

pub signed16-to_u16 : (a : ℤ) → IsI16 a → signed16 (to_u16 a) ≡ a
unfolding signed16 to_u16
signed16-to_u16 (pos n) h = ground arith
signed16-to_u16 (negsuc n) h = ground arith

pub signed8-to_u8 : (a : ℤ) → IsI8 a → signed8 (to_u8 a) ≡ a
unfolding signed8 to_u8
signed8-to_u8 (pos n) h = ground arith
signed8-to_u8 (negsuc n) h = ground arith

pub to_u16-lt : (a : ℤ) → to_u16 a < 65536
unfolding to_u16
to_u16-lt (pos n) = omega arith
to_u16-lt (negsuc n) = omega arith

pub to_u8-lt : (a : ℤ) → to_u8 a < 256
unfolding to_u8
to_u8-lt (pos n) = omega arith
to_u8-lt (negsuc n) = omega arith

pub signed16-IsI16 : (n : ℕ) → n < 65536 → IsI16 (signed16 n)
unfolding signed16
signed16-IsI16 n h = ground arith

pub signed8-IsI16 : (n : ℕ) → n < 256 → IsI16 (signed8 n)
unfolding signed8
signed8-IsI16 n h = ground arith

pub le16-bytes : (n : ℕ) → n < 65536 → le16 (low_byte n) (high_byte n) ≡ n
le16-bytes n h = omega arith

pub to_u16-signed16 : (n : ℕ) → n < 65536 → to_u16 (signed16 n) ≡ n
unfolding signed16 to_u16
to_u16-signed16 n h = ground arith
