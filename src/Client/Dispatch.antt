-- ===== src/Client/Dispatch.antt =====
-- client.cpp: `handle_client_plist_command` and `client_command`: which handler a message goes to.
use usbmuxd_plugable_usb_msv.Prelude.{
  ℕ, ◌-◌, List, Bool, true, false, ◌||◌, not, Option, none, some, ◌==◌, if◌then◌else◌, take, ℤ, pos,
  negsuc, is_neg,
}
use usbmuxd_plugable_usb_msv.Wire.{read_le32, read_be16}
use usbmuxd_plugable_usb_msv.World.{ClientState, client_command as client_in_command}
use usbmuxd_plugable_usb_msv.World.Host.{Host}
use usbmuxd_plugable_usb_msv.World.Step.{M, pure, ◌>>=◌, ◌>>◌, require, load_client, put_client}
use usbmuxd_plugable_usb_msv.Device.Teardown.{client_close}
use usbmuxd_plugable_usb_msv.Client.Reply.{
  codes, send_result, result_badcommand, result_badversion, message_plist, header_size,
}
use usbmuxd_plugable_usb_msv.Client.Notify.{send_device_list}
use usbmuxd_plugable_usb_msv.Client.Plist.{bytes_eq, answer, zero_unless_neg}
use usbmuxd_plugable_usb_msv.Client.Pairing.{
  send_system_buid, handle_read_pair_record_command, handle_save_pair_record_command,
  handle_delete_pair_record_command,
}
use usbmuxd_plugable_usb_msv.Client.Command.{
  Header, message_connect, message_listen, start_connect, handle_listen_command,
  handle_connect_command, handle_add_device_command, handle_remove_device_command,
  handle_device_monitor_command,
}

abbrev is_command : ClientState → Bool
is_command client_in_command = true
is_command _ = false

-- The values of `MessageType` that the program knows.
pub data Command : Type 0 where
  listen connect list_devices read_buid read_pair_record save_pair_record : Command
  delete_pair_record add_device remove_device device_monitor unknown : Command

-- The ladder of `strcmp`s.
unfoldable pub command_of : List ℕ → Command
command_of message =
    if bytes_eq message (codes "Listen")
    then listen
    else if bytes_eq message (codes "Connect")
    then connect
    else if bytes_eq message (codes "ListDevices")
    then list_devices
    else if bytes_eq message (codes "ReadBUID")
    then read_buid
    else if bytes_eq message (codes "ReadPairRecord")
    then read_pair_record
    else if bytes_eq message (codes "SavePairRecord")
    then save_pair_record
    else if bytes_eq message (codes "DeletePairRecord")
    then delete_pair_record
    else if bytes_eq message (codes "AddDevice")
    then add_device
    else if bytes_eq message (codes "RemoveDevice")
    then remove_device
    else if bytes_eq message (codes "DeviceMonitor")
    then device_monitor
    else unknown

module _ (host : Host) where
  -- The handler of each command.
  unfoldable pub run_command : Command → ℕ → ℕ → host.Plist → M ℤ
  run_command listen client tag dict = handle_listen_command host client tag
  run_command connect client tag dict = handle_connect_command host client tag dict
  run_command list_devices client tag dict = do
    res ← send_device_list host client tag
    pure (zero_unless_neg res)
  run_command read_buid client tag dict = do
    res ← send_system_buid host client tag
    pure (zero_unless_neg res)
  run_command read_pair_record client tag dict =
      handle_read_pair_record_command host client tag dict
  run_command save_pair_record client tag dict =
      handle_save_pair_record_command host client tag dict
  run_command delete_pair_record client tag dict =
      handle_delete_pair_record_command host client tag dict
  run_command add_device client tag dict = handle_add_device_command host client tag dict
  run_command remove_device client tag dict = handle_remove_device_command host client tag dict
  run_command device_monitor client tag dict = handle_device_monitor_command host client tag dict
  run_command unknown client tag dict = answer host client tag result_badcommand

  -- `plist_get_string_val` of an item that may be missing.
  unfoldable pub message_type : host.Plist → Option (List ℕ)
  message_type dict = elim (host.plist_dict_get_item dict "MessageType") [
    | none ↦ none
    | some node ↦ host.plist_get_string_val node
  ]

  -- `handle_client_plist_command`
  unfoldable pub handle_client_plist_command : ℕ → Header → List ℕ → M ℤ
  handle_client_plist_command client hdr payload = do
    c ← load_client client
    put_client client (record c { proto_version = 1 })
    elim (host.plist_from_xml (take (hdr.length - header_size) payload)) [
      | none ↦ pure (negsuc 0)
      | some dict ↦ elim (message_type dict) [
        | none ↦ pure (negsuc 0)
        | some message ↦ run_command (command_of message) client hdr.tag dict
      ]
    ]

  -- The binary connect request: device id, and port in network order.
  unfoldable pub binary_connect : ℕ → Header → List ℕ → M ℤ
  binary_connect client hdr payload = do
    (device_id, rest) ← require (read_le32 payload)
    (port, _) ← require (read_be16 rest)
    start_connect host client hdr.tag device_id port

  -- The `switch` of `client_command`.
  unfoldable pub run_message : ℕ → Header → List ℕ → M ℤ
  run_message client hdr payload =
      if hdr.message == message_plist
      then handle_client_plist_command client hdr payload
      else if hdr.message == message_listen
      then handle_listen_command host client hdr.tag
      else if hdr.message == message_connect
      then binary_connect client hdr payload
      else answer host client hdr.tag result_badcommand

  -- `client_command`
  unfoldable pub client_command : ℕ → Header → List ℕ → M ℤ
  client_command client hdr payload = do
    c ← load_client client
    if not (is_command c.state)
        then (do
          res ← send_result host client hdr.tag result_badcommand
          if is_neg res then pure (negsuc 0) else (client_close host client >> pure (negsuc 0)))
        else if not (hdr.version == 0 || hdr.version == 1)
        then (send_result host client hdr.tag result_badversion >> pure (pos 0))
        else run_message client hdr payload
