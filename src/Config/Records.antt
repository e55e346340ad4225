-- ===== src/Config/Records.antt =====
-- conf.cpp: the pairing records of devices.
pub mod Kept
pub mod Lost
use usbmuxd_plugable_usb_msv.Prelude.{
  ℕ, List, ◌++◌, Bool, true, false, ◌||◌, not, Option, none, some, ltb, if◌then◌else◌, length, take,
  ℤ, pos, neg,
}
use Prim.Native.String.{String}
use usbmuxd_plugable_usb_msv.World.Host.{Host}
use usbmuxd_plugable_usb_msv.Client.Plist.{bytes_eq, is_dict, is_string, einval, enoent}
use usbmuxd_plugable_usb_msv.Config.{Disk, Platform, C, pure, ◌>>=◌, ◌>>◌, get_disk, deref}
use usbmuxd_plugable_usb_msv.Config.Files.{
  config_ext, binary_magic, buffer_read_from_filename, remove, plist_write_to_filename,
  config_create_config_dir, config_path,
}
use usbmuxd_plugable_usb_msv.Config.Values.{internal_get_value, config_get_value}
use usbmuxd_plugable_usb_msv.Config.Buid.{copy_string_val}

module _ (host : Host) (sys : Platform host) where
  -- The file of a device's record; it is null if the directory could not be told.
  unfoldable pub device_record_file : List ℕ → C (Option (List ℕ))
  device_record_file udid = config_path host sys (udid ++ config_ext)

  -- `config_has_device_record`
  unfoldable pub config_has_device_record : List ℕ → C ℕ
  config_has_device_record udid = do
    config_create_config_dir host sys
    found ← device_record_file udid
    file ← deref found
    d ← get_disk
    elim (d.files file) [ none ↦ pure 0 | some _ ↦ pure 1 ]

  -- The plist that `config_set_device_record` reads from its data.
  unfoldable pub record_plist : List ℕ → Option host.Plist
  record_plist record_data =
      if bytes_eq (take 8 record_data) binary_magic
      then sys.plist_from_bin record_data
      else host.plist_from_xml record_data

  -- The end of `config_set_device_record`: the old file is removed, and the new one
  -- written. Whether the old one could be removed is not looked at.
  unfoldable pub store_record : List ℕ → host.Plist → C ℤ
  store_record udid plist = do
    config_create_config_dir host sys
    found ← device_record_file udid
    file ← deref found
    remove host sys file
    written ← plist_write_to_filename host sys plist file
    pure (if written then pos 0 else neg enoent)

  -- `config_set_device_record`
  unfoldable pub config_set_device_record : List ℕ → List ℕ → C ℤ
  config_set_device_record udid record_data =
      if ltb (length record_data) 8 then pure (neg einval) else elim (record_plist record_data) [
        | none ↦ pure (neg einval)
        | some plist ↦
            if is_dict (host.plist_get_node_type plist)
            then store_record udid plist
            else pure (neg einval)
      ]

  -- `config_get_device_record`: the contents, if there are any, and the result.
  unfoldable pub config_get_device_record : List ℕ → C (Option (List ℕ) × ℤ)
  config_get_device_record udid = do
    config_create_config_dir host sys
    found ← device_record_file udid
    file ← deref found
    d ← get_disk
    elim (buffer_read_from_filename file d) [
      | none ↦ pure (none, neg enoent)
      | some contents ↦ pure (some contents, pos 0)
    ]

  -- `config_remove_device_record`
  unfoldable pub config_remove_device_record : List ℕ → C ℤ
  config_remove_device_record udid = do
    found ← device_record_file udid
    file ← deref found
    d ← get_disk
    is_removed ← remove host sys file
    pure (if is_removed then pos 0 else neg (sys.remove_errno d file))

  -- `config_device_record_get_value`
  unfoldable pub config_device_record_get_value : List ℕ → String → C (Option host.Plist)
  config_device_record_get_value udid key = do
    found ← device_record_file udid
    d ← get_disk
    pure (internal_get_value host sys found key d)

  -- `config_device_record_get_host_id`: the id of the record, or that of the configuration.
  unfoldable pub config_device_record_get_host_id : List ℕ → C (Option (List ℕ))
  config_device_record_get_host_id udid = do
    value ← config_device_record_get_value udid "HostID"
    found ← copy_string_val host sys value
    elim found [
      | some host_id ↦ pure (some host_id)
      | none ↦ do general ← config_get_value host sys "HostID"; copy_string_val host sys general
    ]
