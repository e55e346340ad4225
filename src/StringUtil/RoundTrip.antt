-- ===== src/StringUtil/RoundTrip.antt =====
-- StringUtil.cpp: text that was made of bytes is read back as those bytes.
use usbmuxd_plugable_usb_msv.Prelude.{
  ℕ, ◌+◌, ◌*◌, ◌/◌, ◌%◌, ◌≤◌, ◌<◌, ◌≡◌, refl, ap, List, [], ◌∷◌, none, some, length, arith, ◌⊎◌,
  inl, inr, Bool-cases, ltb,
}
use usbmuxd_plugable_usb_msv.StringUtil.{
  hex_digit_value, hex_char, joined, in_front, read_digits, hex_string_to_buffer, write_digits,
  buffer_to_hex_string,
}

abbrev pub AreBytes : List ℕ → Type 0
AreBytes [] = Unit
AreBytes (b ∷ bs) = (b < 256) × AreBytes bs

hex_digit_value-hex_char : (v : ℕ) → v < 16 → hex_digit_value (hex_char v) ≡ some v
unfolding hex_digit_value hex_char
hex_digit_value-hex_char v h = ground (arith, h)

joined-hex_char :
    (b : ℕ)
    → b < 256
    → joined (hex_digit_value (hex_char (b / 16))) (hex_digit_value (hex_char (b % 16))) ≡ some b
unfolding joined
joined-hex_char b h =
    rw (hex_digit_value-hex_char (b / 16) (omega (arith, h)))
      (rw (hex_digit_value-hex_char (b % 16) (omega arith)) (ap some (omega arith)))

read_digits-write_digits : (bs : List ℕ) → AreBytes bs → read_digits (write_digits bs) ≡ some bs
unfolding read_digits write_digits in_front
read_digits-write_digits [] h = refl
read_digits-write_digits (b ∷ bs) h =
    rw (joined-hex_char b h.0) (rw (read_digits-write_digits bs h.1) refl)

length-write_digits : (bs : List ℕ) → length (write_digits bs) ≡ length bs * 2
unfolding write_digits
length-write_digits [] = refl
length-write_digits (b ∷ bs) = omega (arith, length-write_digits bs)

reads_back :
    (bs : List ℕ) (buffer_size : ℕ)
    → AreBytes bs
    → length bs ≤ buffer_size
    → hex_string_to_buffer (write_digits bs) buffer_size ≡ some bs
unfolding hex_string_to_buffer
reads_back bs buffer_size h room =
    ground (arith, length-write_digits bs, read_digits-write_digits bs h, room)

-- If the text buffer has room for two digits of each byte and the zero, `BufferToHexStringA` makes a
-- text of the bytes that `HexStringToBufferA`, with room for as many bytes, reads back as the same
-- bytes; without that room there is no text.
pub hex_string_to_buffer-buffer_to_hex_string :
    (bs : List ℕ) (hex_size buffer_size : ℕ)
    → AreBytes bs
    → length bs ≤ buffer_size
    → ((length bs * 2 < hex_size)
        × ((hex : List ℕ) × (buffer_to_hex_string bs hex_size ≡ some hex)
            × (length hex ≡ length bs * 2)
            × (hex_string_to_buffer hex buffer_size ≡ some bs)))
      ⊎ ((hex_size ≤ length bs * 2) × (buffer_to_hex_string bs hex_size ≡ none))
unfolding buffer_to_hex_string
hex_string_to_buffer-buffer_to_hex_string bs hex_size buffer_size h room =
    elim (Bool-cases (ltb hex_size (length bs * 2 + 1))) [
      | inl short ↦ inr (ground (arith, short))
      | inr fits ↦ inl (
        ground (arith, fits),
        (
          write_digits bs,
          ground (arith, fits),
          length-write_digits bs,
          reads_back bs buffer_size h room,
        ),
      )
    ]
