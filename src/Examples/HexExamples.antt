-- ===== src/Examples/HexExamples.antt =====
-- Three bytes, for which the theorem on StringUtil.cpp is applied.
use usbmuxd_plugable_usb_msv.Prelude.{
  ℕ, ◌*◌, ◌≤◌, ◌<◌, ◌≡◌, ◌⊎◌, List, [], ◌∷◌, none, some, length, arith,
}
use usbmuxd_plugable_usb_msv.StringUtil.{hex_string_to_buffer, buffer_to_hex_string}
use usbmuxd_plugable_usb_msv.StringUtil.RoundTrip.{hex_string_to_buffer-buffer_to_hex_string}

abbrev three_bytes : List ℕ
three_bytes = 0 ∷ 171 ∷ 255 ∷ []

hex_string_to_buffer-buffer_to_hex_string_example :
    ((3 * 2 < 7)
      × ((hex : List ℕ) × (buffer_to_hex_string three_bytes 7 ≡ some hex)
          × (length hex ≡ 3 * 2)
          × (hex_string_to_buffer hex 3 ≡ some three_bytes)))
    ⊎ ((7 ≤ 3 * 2) × (buffer_to_hex_string three_bytes 7 ≡ none))
hex_string_to_buffer-buffer_to_hex_string_example =
    hex_string_to_buffer-buffer_to_hex_string three_bytes 7 3
      (omega arith, (omega arith, (omega arith, tt))) (omega arith)
