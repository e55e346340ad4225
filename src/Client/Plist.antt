-- ===== src/Client/Plist.antt =====
-- client.cpp: what the commands of a client share: byte strings, typed items of a plist, answers.
use usbmuxd_plugable_usb_msv.Prelude.{
  ℕ, ◌+◌, ◌-◌, ◌^◌, List, [], ◌∷◌, Bool, true, false, ◌&&◌, Option, none, some, ◌==◌, if◌then◌else◌,
  ℤ, pos, negsuc, is_neg,
}
use Prim.Native.String.{String}
use usbmuxd_plugable_usb_msv.World.Host.{
  Host, PlistType, plist_boolean, plist_uint, plist_string, plist_dict, plist_data,
}
use usbmuxd_plugable_usb_msv.World.Step.{M, pure, ◌>>=◌, ◌>>◌}
use usbmuxd_plugable_usb_msv.Client.Reply.{send_result}

-- `EINVAL` and `ENOENT`
abbrev pub einval : ℕ
einval = 22

abbrev pub enoent : ℕ
enoent = 2

-- `(uint32_t)-EIO`
abbrev pub minus_eio : ℕ
minus_eio = 2 ^ 32 - 5

infixl 5 ◌>>=?◌
abbrev pub ◌>>=?◌ : {A B : Type 0} → Option A → (A → Option B) → Option B
none >>=? f = none
some a >>=? f = f a

-- `strcmp` finds no difference.
unfoldable pub bytes_eq : List ℕ → List ℕ → Bool
bytes_eq [] [] = true
bytes_eq [] (b ∷ bs) = false
bytes_eq (a ∷ as₁) [] = false
bytes_eq (a ∷ as₁) (b ∷ bs) = a == b && bytes_eq as₁ bs

-- "handle "-" in udid": the first dash is taken out.
unfoldable pub remove_dash : List ℕ → List ℕ
remove_dash [] = []
remove_dash (b ∷ bs) = if b == b'-' then bs else b ∷ remove_dash bs

-- The absolute value of a negative result.
abbrev pub magnitude : ℤ → ℕ
magnitude (pos n) = n
magnitude (negsuc n) = n + 1

abbrev pub is_dict : PlistType → Bool
is_dict plist_dict = true
is_dict _ = false

abbrev pub is_string : PlistType → Bool
is_string plist_string = true
is_string _ = false

abbrev pub is_data : PlistType → Bool
is_data plist_data = true
is_data _ = false

abbrev pub is_uint : PlistType → Bool
is_uint plist_uint = true
is_uint _ = false

abbrev pub is_boolean : PlistType → Bool
is_boolean plist_boolean = true
is_boolean _ = false

-- `send_result(…) < 0 ? -1 : 0`
abbrev pub zero_unless_neg : ℤ → ℤ
zero_unless_neg r = if is_neg r then negsuc 0 else pos 0

module _ (host : Host) where
  open host use {
    Plist, plist_new_dict, plist_new_string, plist_new_data, plist_dict_set_item,
    plist_dict_get_item, plist_get_node_type, plist_get_string_val, plist_get_uint_val,
    plist_get_bool_val, plist_get_data_val, plist_from_xml,
  }

  -- `send_result`, for a handler that answers and returns 0.
  unfoldable pub answer : ℕ → ℕ → ℕ → M ℤ
  answer client tag result = do res ← send_result host client tag result; pure (zero_unless_neg res)

  -- `(void)send_result(…); return -1;`
  unfoldable pub refuse : ℕ → ℕ → ℕ → M ℤ
  refuse client tag result = send_result host client tag result >> pure (negsuc 0)

  -- An item of a dictionary, if it has the type.
  abbrev pub typed_item : Plist → String → (PlistType → Bool) → Option Plist
  typed_item dict key test = plist_dict_get_item dict key >>=? λ item.
      if test (plist_get_node_type item) then some item else none

  -- `plist_dict_get_string_val`
  unfoldable pub plist_dict_get_string_val : Plist → String → Option (List ℕ)
  plist_dict_get_string_val dict key =
      if is_dict (plist_get_node_type dict)
      then typed_item dict key is_string >>=? plist_get_string_val
      else none
