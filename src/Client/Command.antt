-- ===== src/Client/Command.antt =====
-- client.cpp: the commands to connect, to listen, and those for the USB host.
use usbmuxd_plugable_usb_msv.Prelude.{
  ℕ, ◌+◌, ◌/◌, ◌%◌, ◌^◌, ◌*◌, List, Bool, false, not, Option, none, some, ◌==◌, if◌then◌else◌, ℤ,
  pos, negsuc, is_neg,
}
use usbmuxd_plugable_usb_msv.Wire.{read_le32}
use usbmuxd_plugable_usb_msv.World.{
  client_connecting1, usb_add_asked, usb_remove_asked, usb_monitor_asked,
}
use usbmuxd_plugable_usb_msv.World.Host.{Host}
use usbmuxd_plugable_usb_msv.World.Step.{
  M, pure, ◌>>=◌, ◌>>◌, emit, get_world, load_client, put_client,
}
use usbmuxd_plugable_usb_msv.Device.Ports.{device_start_connect}
use usbmuxd_plugable_usb_msv.Client.Reply.{send_result, result_ok, result_badcommand, result_baddev}
use usbmuxd_plugable_usb_msv.Client.Notify.{start_listen}
use usbmuxd_plugable_usb_msv.Client.Plist.{
  minus_eio, ◌>>=?◌, magnitude, is_uint, is_boolean, answer, refuse, typed_item,
}

abbrev pub message_connect : ℕ
message_connect = 2

abbrev pub message_listen : ℕ
message_listen = 3

-- `struct usbmuxd_header`
pub record Header : Type 0 where
  pub length : ℕ
  pub version : ℕ
  pub message : ℕ
  pub tag : ℕ

-- The header at the front of the in-buffer, with what follows it.
unfoldable pub read_header : List ℕ → Option (Header × List ℕ)
read_header bs = read_le32 bs >>=? λ (len, bs₁). read_le32 bs₁ >>=? λ (version, bs₂).
    read_le32 bs₂ >>=? λ (message, bs₃). read_le32 bs₃ >>=? λ (tag, rest).
    some (record { length = len; version = version; message = message; tag = tag }, rest)

-- `ntohs` of a 16-bit number on a little-endian host
abbrev pub swap16 : ℕ → ℕ
swap16 n = n % 256 * 256 + n / 256 % 256

module _ (host : Host) where
  open host use {
    Plist, plist_new_dict, plist_new_string, plist_new_data, plist_dict_set_item,
    plist_dict_get_item, plist_get_node_type, plist_get_string_val, plist_get_uint_val,
    plist_get_bool_val, plist_get_data_val, plist_from_xml,
  }

  -- The connect request of both protocols, for a port in host order.
  unfoldable pub start_connect : ℕ → ℕ → ℕ → ℕ → M ℤ
  start_connect client tag device_id port = do
    res ← device_start_connect host device_id port client
    if is_neg res then answer host client tag (magnitude res) else (do
      c ← load_client client
      put_client client
          (record c { connect_tag = tag; connect_device = device_id; state = client_connecting1 })
      pure (pos 0))

  -- The number of an item, 0 if it has none.
  abbrev uint_or_zero : Plist → ℕ
  uint_or_zero item = elim (plist_get_uint_val item) [ none ↦ 0 | some n ↦ n ]

  -- `handle_connect_command`
  unfoldable pub handle_connect_command : ℕ → ℕ → Plist → M ℤ
  handle_connect_command client tag dict = elim (plist_dict_get_item dict "DeviceID") [
    | none ↦ answer host client tag result_baddev
    | some id ↦ elim (plist_dict_get_item dict "PortNumber") [
      | none ↦ answer host client tag result_badcommand
      | some port ↦
          start_connect client tag (uint_or_zero id % 2 ^ 32) (swap16 (uint_or_zero port % 2 ^ 16))
    ]
  ]

  -- `handle_listen_command`, which is also the binary listen request.
  unfoldable pub handle_listen_command : ℕ → ℕ → M ℤ
  handle_listen_command client tag = do
    res ← send_result host client tag 0
    if is_neg res then pure (negsuc 0) else start_listen host client

  -- `get_device_location_from_device_command`
  unfoldable pub get_device_location_from_device_command : Plist → ℕ
  get_device_location_from_device_command dict =
      elim (typed_item host dict "DeviceLocation" is_uint) [
        | none ↦ 0
        | some item ↦ uint_or_zero item % 2 ^ 32
      ]

  -- The shape of the three device commands: ask for the command, and answer how it went.
  unfoldable pub device_command : ℕ → ℕ → Plist → (ℕ → M ℤ) → M ℤ
  device_command client tag dict ask =
      if get_device_location_from_device_command dict == 0
      then refuse host client tag result_badcommand
      else (do
        res ← ask (get_device_location_from_device_command dict)
        if is_neg res then refuse host client tag minus_eio else answer host client tag result_ok)

  -- `handle_add_device_command`
  unfoldable pub handle_add_device_command : ℕ → ℕ → Plist → M ℤ
  handle_add_device_command client tag dict = device_command client tag dict λ location. do
    w ← get_world
    emit (usb_add_asked location)
    pure (host.usb_add_device w.trace location)

  -- `handle_remove_device_command`
  unfoldable pub handle_remove_device_command : ℕ → ℕ → Plist → M ℤ
  handle_remove_device_command client tag dict = device_command client tag dict λ location. do
    w ← get_world
    emit (usb_remove_asked location)
    pure (host.usb_remove_device w.trace location)

  -- The value of `AutoMonitor`: true if it is a boolean and not zero.
  abbrev auto_monitor : Plist → Bool
  auto_monitor dict = elim (typed_item host dict "AutoMonitor" is_boolean >>=? plist_get_bool_val) [
    | none ↦ false
    | some b ↦ not (b == 0)
  ]

  -- `handle_device_monitor_command`
  unfoldable pub handle_device_monitor_command : ℕ → ℕ → Plist → M ℤ
  handle_device_monitor_command client tag dict = device_command client tag dict λ location. do
    w ← get_world
    emit (usb_monitor_asked location (auto_monitor dict))
    pure (host.usb_set_monitoring w.trace location (auto_monitor dict))
