-- ===== src/StringUtil.antt =====
-- StringUtil.cpp: bytes as hexadecimal text: `HexStringToBufferA`, `BufferToHexStringA`,
-- `HexDigitValue`.
pub mod RoundTrip
use usbmuxd_plugable_usb_msv.Prelude.{
  ℕ, ◌+◌, ◌-◌, ◌*◌, ◌/◌, ◌%◌, List, [], ◌∷◌, Bool, true, false, ◌&&◌, not, Option, none, some, ltb,
  leb, ◌==◌, if◌then◌else◌, length,
}

-- `HexDigitValue`; -1 is `none`.
unfoldable pub hex_digit_value : ℕ → Option ℕ
hex_digit_value digit =
    if leb 48 digit && leb digit 57
    then some (digit - 48)
    else if leb 97 digit && leb digit 102
    then some (10 + digit - 97)
    else if leb 65 digit && leb digit 70
    then some (10 + digit - 65)
    else none

-- `acHexChars[value]`, for a value below 16
unfoldable pub hex_char : ℕ → ℕ
hex_char value = if ltb value 10 then 48 + value else 55 + value

-- The byte of two digits
unfoldable pub joined : Option ℕ → Option ℕ → Option ℕ
joined (some high) (some low) = some (high * 16 + low)
joined _ _ = none

-- The byte in front of the rest, if both are there
unfoldable pub in_front : Option ℕ → Option (List ℕ) → Option (List ℕ)
in_front (some b) (some bs) = some (b ∷ bs)
in_front _ _ = none

-- The loop of `HexStringToBufferA` over an even number of characters
unfoldable pub read_digits : List ℕ → Option (List ℕ)
read_digits [] = some []
read_digits (c ∷ []) = none
read_digits (high ∷ low ∷ rest) =
    in_front (joined (hex_digit_value high) (hex_digit_value low)) (read_digits rest)

-- `HexStringToBufferA`: the bytes written, if it returns true
unfoldable pub hex_string_to_buffer : List ℕ → ℕ → Option (List ℕ)
hex_string_to_buffer hex buffer_size =
    if not (length hex % 2 == 0)
    then none
    else if ltb buffer_size (length hex / 2)
    then none
    else read_digits hex

-- The loop of `BufferToHexStringA`
unfoldable pub write_digits : List ℕ → List ℕ
write_digits [] = []
write_digits (b ∷ bs) = hex_char (b / 16) ∷ hex_char (b % 16) ∷ write_digits bs

-- `BufferToHexStringA`: the text, which ends in a zero, if it returns true
unfoldable pub buffer_to_hex_string : List ℕ → ℕ → Option (List ℕ)
buffer_to_hex_string buffer hex_size =
    if ltb hex_size (length buffer * 2 + 1) then none else some (write_digits buffer)
