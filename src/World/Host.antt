-- ===== src/World/Host.antt =====
-- What the program calls and does not implement in the modelled files: sockets, the clock, the
-- transfer of a packet to a USB device, and libplist. An answer may depend on all earlier calls.
use usbmuxd_plugable_usb_msv.Prelude.{ℕ, ◌≤◌, ◌≡◌, Bool, List, Option, some, length}
use usbmuxd_plugable_usb_msv.Prelude.{ℤ, pos}
use usbmuxd_plugable_usb_msv.World.{Event, World}
use Prim.Native.String.{String}

-- `plist_type`, as far as the program asks for it
pub data PlistType : Type 0 where
  plist_boolean plist_uint plist_string plist_array plist_dict plist_data plist_other : PlistType

pub record Host : Type 1 where
  -- `usb_send`: the answer to the transfer of a packet to a device.
  pub usb_send : List Event → ℕ → List ℕ → ℤ
  -- `send(fd, buf, len, 0)` accepts at most what it is offered.
  pub send : List Event → ℕ → List ℕ → ℤ
  pub send_at_most :
      (t : List Event) (fd : ℕ) (buf : List ℕ) (n : ℕ) → send t fd buf ≡ pos n → n ≤ length buf
  -- `recv(fd, buf, len, 0)`: nothing on an error, otherwise at most `len` bytes.
  pub recv : List Event → ℕ → ℕ → Option (List ℕ)
  pub recv_at_most :
      (t : List Event) (fd len : ℕ) (bs : List ℕ) → recv t fd len ≡ some bs → length bs ≤ len
  -- `realloc` to a size: is there memory for it, next to all that is held?
  pub realloc : World → ℕ → Bool
  -- `mstime64`
  pub mstime : List Event → ℕ
  -- `usb_get_serial`, `usb_get_location`, `usb_get_pid`
  pub usb_serial : ℕ → List ℕ
  pub usb_location : ℕ → ℕ
  pub usb_pid : ℕ → ℕ
  -- `usb_add_device`, `usb_remove_device`, `usb_set_device_monitoring_immediately`
  pub usb_add_device : List Event → ℕ → ℤ
  pub usb_remove_device : List Event → ℕ → ℤ
  pub usb_set_monitoring : List Event → ℕ → Bool → ℤ
  -- conf.cpp: the system's id, and the store of pairing records
  pub config_get_system_buid : List Event → List ℕ
  pub config_get_device_record : List Event → List ℕ → Option (List ℕ)
  pub config_set_device_record : List Event → List ℕ → List ℕ → ℤ
  pub config_remove_device_record : List Event → List ℕ → ℤ
  -- The environment variable MCE_INCLUDE_HIDDEN_DEVICES is "true".
  pub include_hidden : List Event → Bool
  -- libplist
  pub Plist : Type 0
  pub plist_new_dict : Plist
  pub plist_new_array : Plist
  pub plist_new_string : List ℕ → Plist
  pub plist_new_uint : ℕ → Plist
  pub plist_dict_set_item : Plist → String → Plist → Plist
  pub plist_array_append_item : Plist → Plist → Plist
  pub plist_dict_get_item : Plist → String → Option Plist
  pub plist_get_node_type : Plist → PlistType
  pub plist_get_string_val : Plist → Option (List ℕ)
  pub plist_get_uint_val : Plist → Option ℕ
  pub plist_get_data_val : Plist → Option (List ℕ)
  pub plist_new_data : List ℕ → Plist
  pub plist_get_bool_val : Plist → Option ℕ
  pub plist_from_xml : List ℕ → Option Plist
  pub plist_to_xml : Plist → Option (List ℕ)
