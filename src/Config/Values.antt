-- ===== src/Config/Values.antt =====
-- conf.cpp: values by their keys: `config_set_value`, `config_get_value`.
pub mod Written
pub mod Stored
use usbmuxd_plugable_usb_msv.Prelude.{ℕ, Bool, true, false, List, Option, none, some, if◌then◌else◌}
use Prim.Native.String.{String}
use usbmuxd_plugable_usb_msv.World.Host.{Host}
use usbmuxd_plugable_usb_msv.Config.{Disk, Platform, C, pure, ◌>>=◌, ◌>>◌, get_disk, deref}
use usbmuxd_plugable_usb_msv.Config.Files.{
  local_config_file, config_has_local_config, remove, plist_read_from_filename,
  plist_write_to_filename, config_create_config_dir, config_path, config_file_name,
}

module _ (host : Host) (sys : Platform host) where
  open host use {Plist, plist_new_dict, plist_dict_set_item, plist_dict_get_item}

  -- The dictionary that `internal_set_value` writes, for what was in the file.
  unfoldable pub with_value : Option Plist → String → Plist → Plist
  with_value none key value = plist_dict_set_item plist_new_dict key value
  with_value (some config) key value = elim (plist_dict_get_item config key) [
    | none ↦ plist_dict_set_item config key value
    | some _ ↦ plist_dict_set_item (sys.plist_dict_remove_item config key) key value
  ]

  -- `remove(config_file)`, which is done only for a file that holds a plist.
  unfoldable pub drop_old : Option Plist → List ℕ → C (Unit {0})
  drop_old none config_file = pure tt
  drop_old (some config) config_file = remove host sys config_file >> pure tt

  -- `internal_set_value`
  unfoldable pub internal_set_value : Option (List ℕ) → String → Plist → C ℕ
  internal_set_value none key value = pure 0
  internal_set_value (some config_file) key value = do
    d ← get_disk
    let config = (plist_read_from_filename host sys config_file d).1
    drop_old config config_file
    plist_write_to_filename host sys (with_value config key value) config_file
    pure 1

  -- `config_set_value`
  unfoldable pub config_set_value : String → Plist → C ℕ
  config_set_value key value = do
    d ← get_disk
    if config_has_local_config d then internal_set_value (some local_config_file) key value else (do
      config_create_config_dir host sys
      config_file ← config_path host sys config_file_name
      internal_set_value config_file key value)

  -- `internal_get_value`; where the file holds no plist, the item is looked up in a null pointer,
  -- which libplist answers with nothing.
  unfoldable pub internal_get_value : Option (List ℕ) → String → Disk → Option Plist
  internal_get_value none key d = none
  internal_get_value (some config_file) key d =
      elim (plist_read_from_filename host sys config_file d).1 [
        | none ↦ none
        | some config ↦ plist_dict_get_item config key
      ]

  -- `config_get_value`
  unfoldable pub config_get_value : String → C (Option Plist)
  config_get_value key = do
    d ← get_disk
    if config_has_local_config d
        then pure (internal_get_value (some local_config_file) key d)
        else (do
          config_file ← config_path host sys config_file_name
          e ← get_disk
          pure (internal_get_value config_file key e))
