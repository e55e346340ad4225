-- ===== src/Config/Records/Kept.antt =====
-- conf.cpp: pairing records are kept.
use usbmuxd_plugable_usb_msv.Prelude.{
  ℕ, ◌≡◌, ◌⊎◌, ◌<◌, List, ◌∷◌, ◌++◌, Bool, false, Option, none, some, length, ℤ, pos, neg,
}
use usbmuxd_plugable_usb_msv.World.Host.{Host}
use usbmuxd_plugable_usb_msv.Client.Plist.{is_dict, enoent}
use usbmuxd_plugable_usb_msv.Config.{Disk, Platform}
use usbmuxd_plugable_usb_msv.Config.Laws.{Writable}
use usbmuxd_plugable_usb_msv.Config.Files.{dir_sep, config_ext}
use usbmuxd_plugable_usb_msv.Config.Records.{record_plist}

-- The file of a record in a directory.
abbrev pub record_path : List ℕ → List ℕ → List ℕ
record_path dir udid = dir ++ (dir_sep ∷ (udid ++ config_ext))

-- What `config_get_device_record` answers for what it read.
abbrev pub record_answer : Option (List ℕ) → Option (List ℕ) × ℤ
record_answer none = (none, neg enoent)
record_answer (some contents) = (some contents, pos 0)

-- Why data is no record.
abbrev pub IsUnfit : (host : Host) (sys : Platform host) → List ℕ → Type 0
IsUnfit host sys contents =
    (length contents < 8)
    ⊎ ((record_plist host sys contents ≡ none)
        ⊎ ((p : host.Plist) × (record_plist host sys contents ≡ some p)
            × (is_dict (host.plist_get_node_type p) ≡ false)))

module _ (host : Host) (sys : Platform host) (w : Writable host sys) where
  -- The answer from a disk whose directory was looked up.
  abbrev answer_at :
      List ℕ → (List ℕ → Bool) → Disk → Option (List ℕ) → Option ((Option (List ℕ) × ℤ) × Disk)
  answer_at dir dirs e buffer =
      some (record_answer buffer, record e { config_dir = some dir; dirs = dirs })
