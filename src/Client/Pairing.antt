-- ===== src/Client/Pairing.antt =====
-- client.cpp: the commands on the BUID and the pair records: `send_system_buid`,
-- `send_pair_record` and the `handle_…_pair_record_command` functions.
pub mod Access
use usbmuxd_plugable_usb_msv.Prelude.{
  ℕ, List, Bool, true, false, ◌||◌, none, some, if◌then◌else◌, ℤ, is_neg,
}
use Prim.Native.String.{String}
use usbmuxd_plugable_usb_msv.World.{record_read, record_saved, record_removed, buid_read}
use usbmuxd_plugable_usb_msv.World.Host.{Host}
use usbmuxd_plugable_usb_msv.World.Step.{M, pure, ◌>>=◌, ◌>>◌, emit, get_world, require}
use usbmuxd_plugable_usb_msv.Client.Reply.{codes, send_result, send_plist_pkt, result_ok}
use usbmuxd_plugable_usb_msv.Client.Plist.{
  einval, enoent, ◌>>=?◌, bytes_eq, remove_dash, magnitude, is_data, zero_unless_neg, answer,
  typed_item, plist_dict_get_string_val,
}

module _ (host : Host) where
  open host use {
    Plist, plist_new_dict, plist_new_string, plist_new_data, plist_dict_set_item,
    plist_dict_get_item, plist_get_node_type, plist_get_string_val, plist_get_uint_val,
    plist_get_bool_val, plist_get_data_val, plist_from_xml,
  }

  -- `send_system_buid`
  unfoldable pub send_system_buid : ℕ → ℕ → M ℤ
  send_system_buid client tag = do
    w ← get_world
    emit buid_read
    send_plist_pkt host client tag (
        plist_dict_set_item plist_new_dict "BUID"
          (plist_new_string (host.config_get_system_buid w.trace)))

  -- Does a stored record, read as a plist, lack one of the entries that it must have?
  unfoldable pub is_partial : List ℕ → Bool
  is_partial record_data = elim (plist_from_xml record_data) [
    | none ↦ false
    | some dict ↦ lacks dict "DeviceCertificate" || (lacks dict "HostID" || lacks dict "SystemBUID")
  ]
    where
      lacks : Plist → String → Bool
      lacks dict key = elim (plist_dict_get_item dict key) [ none ↦ true | some _ ↦ false ]

  -- `send_pair_record` for a record id
  unfoldable pub send_pair_record : ℕ → ℕ → List ℕ → M ℤ
  send_pair_record client tag record_id = do
    w ← get_world
    emit (record_read record_id)
    elim (host.config_get_device_record w.trace record_id) [
      | none ↦ send_result host client tag enoent
      | some stored ↦
          if is_partial stored
          then send_result host client tag enoent
          else send_plist_pkt host client tag
              (plist_dict_set_item plist_new_dict "PairRecordData" (plist_new_data stored))
    ]

  -- `handle_read_pair_record_command`: `strstr` is called on the record id, also if there is none.
  unfoldable pub handle_read_pair_record_command : ℕ → ℕ → Plist → M ℤ
  handle_read_pair_record_command client tag dict = do
    record_id ← require (plist_dict_get_string_val host dict "PairRecordID")
    res ← send_pair_record client tag (remove_dash record_id)
    pure (zero_unless_neg res)

  -- Is the bundle id that of libusbmuxd?
  unfoldable pub is_libusbmuxd : Plist → Bool
  is_libusbmuxd dict = elim (plist_dict_get_item dict "BundleID" >>=? plist_get_string_val) [
    | none ↦ false
    | some bundle_id ↦ bytes_eq bundle_id (codes "org.libimobiledevice.usbmuxd")
  ]

  -- `handle_save_pair_record_command`; any other client is ignored, with a good result.
  unfoldable pub handle_save_pair_record_command : ℕ → ℕ → Plist → M ℤ
  handle_save_pair_record_command client tag dict =
      if is_libusbmuxd dict
      then elim (plist_dict_get_string_val host dict "PairRecordID") [
        | none ↦ answer host client tag einval
        | some record_id ↦
            elim (typed_item host dict "PairRecordData" is_data >>=? plist_get_data_val) [
              | none ↦ answer host client tag einval
              | some contents ↦ do
                w ← get_world
                emit (record_saved record_id contents)
                let res = host.config_set_device_record w.trace record_id contents
                answer host client tag (if is_neg res then magnitude res else result_ok)
            ]
      ]
      else answer host client tag result_ok

  -- `handle_delete_pair_record_command`
  unfoldable pub handle_delete_pair_record_command : ℕ → ℕ → Plist → M ℤ
  handle_delete_pair_record_command client tag dict =
      elim (plist_dict_get_string_val host dict "PairRecordID") [
        | none ↦ answer host client tag einval
        | some record_id ↦ do
          w ← get_world
          emit (record_removed record_id)
          let res = host.config_remove_device_record w.trace record_id
          answer host client tag (if is_neg res then magnitude res else result_ok)
      ]
