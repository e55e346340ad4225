-- ===== src/Examples/ConfigExamples.antt =====
-- The theorems about conf.cpp at a concrete platform.
use usbmuxd_plugable_usb_msv.Prelude.{
  ℕ, ◌≡◌, ◌≢◌, ◌⊎◌, refl, ap, List, [], ◌∷◌, ◌++◌, true, false, none, some, arith, length, pos, neg,
}
use Prim.Native.String.{String, len}
use usbmuxd_plugable_usb_msv.Client.Reply.{codes}
use usbmuxd_plugable_usb_msv.Client.Plist.{enoent, bytes_eq}
use usbmuxd_plugable_usb_msv.Config.{Disk, Platform, update_file}
use usbmuxd_plugable_usb_msv.Config.Files.{
  config_get_config_dir, plist_read_from_filename, buffer_read_from_filename,
}
use usbmuxd_plugable_usb_msv.Config.Values.Stored.{
  Stored, ConfigIn, HoldsDicts, config_set_value_lem,
}
use usbmuxd_plugable_usb_msv.Config.Buid.{config_generate_uuid}
use usbmuxd_plugable_usb_msv.Config.Buid.Shape.{HoldsAt, config_generate_uuid_lem}
use usbmuxd_plugable_usb_msv.Config.Records.{
  record_plist, config_set_device_record, config_get_device_record,
}
use usbmuxd_plugable_usb_msv.Config.Records.Kept.{record_path, record_answer}
use usbmuxd_plugable_usb_msv.Config.Records.Lost.{config_set_device_record_unstored}
use usbmuxd_plugable_usb_msv.Examples.PaperHost.{
  paper_host, open_platform, paper_host-Libplist, open_platform-Writable, from_xml, node_type,
}

-- A disk with nothing on it but the configuration directory "C".
abbrev blank : Disk
blank = record { files = λ q. none; dirs = λ q. true; config_dir = some (codes "C") }

-- A platform on which no file can be opened for writing.
abbrev shut_platform : Platform paper_host
shut_platform = record open_platform { opens_for_write = λ d q. false }

-- A dictionary with no items, as XML.
abbrev record_text : List ℕ
record_text = codes "<" ++ (0 ∷ 0 ∷ 0 ∷ 0 ∷ 0 ∷ 0 ∷ 0 ∷ [])

keys_apart : ◌≢◌ {A = String} "HostID" "SystemBUID"
keys_apart e = omega (arith, ap len e)

blank-ConfigIn :
    ConfigIn paper_host open_platform paper_host-Libplist open_platform-Writable (codes "C") blank
unfolding config_get_config_dir
blank-ConfigIn = refl

blank-HoldsDicts :
    HoldsDicts paper_host open_platform paper_host-Libplist open_platform-Writable (codes "C") blank
unfolding plist_read_from_filename buffer_read_from_filename
blank-HoldsDicts = (λ c e. absurd (cc), λ c e. absurd (cc))

-- A disk with an old record of the device "AA".
abbrev recorded : Disk
recorded = record blank {
  files = update_file bytes_eq blank.files (record_path (codes "C") (codes "AA")) (some (60 ∷ []));
}

config_set_value_lem_example :
    Stored paper_host open_platform paper_host-Libplist open_platform-Writable "SystemBUID" "HostID"
      (1 ∷ 65 ∷ [])
      blank
config_set_value_lem_example =
    config_set_value_lem paper_host open_platform paper_host-Libplist open_platform-Writable
      "SystemBUID" "HostID" (1 ∷ 65 ∷ []) blank (codes "C") blank-ConfigIn blank-HoldsDicts
      keys_apart

config_generate_uuid_lem_example :
    (length (config_generate_uuid paper_host open_platform 1 blank) ≡ 36)
    × HoldsAt (config_generate_uuid paper_host open_platform 1 blank) 8 8
config_generate_uuid_lem_example =
    config_generate_uuid_lem paper_host open_platform 1 blank 8 (omega arith)

config_set_device_record_unstored_example :
    let path = record_path (codes "C") (codes "AA") in
    (e : Disk) × (config_set_device_record paper_host shut_platform
        (codes "AA")
        record_text
        recorded
      ≡ some (pos 0, e))
    × (((◌≡◌ true true)
          × (e.files path ≡ none)
          × (config_get_device_record paper_host shut_platform (codes "AA") e
              ≡ some ((none, neg enoent), e)))
        ⊎ ((◌≡◌ true false)
            × (e ≡ recorded)
            × (config_get_device_record paper_host shut_platform (codes "AA") e
                ≡ some (record_answer (buffer_read_from_filename path recorded), recorded))))
unfolding record_plist from_xml node_type bytes_eq
config_set_device_record_unstored_example =
    config_set_device_record_unstored paper_host shut_platform (codes "C") (codes "AA") record_text
      (60 ∷ []) (0 ∷ 0 ∷ 0 ∷ 0 ∷ 0 ∷ 0 ∷ 0 ∷ []) recorded (omega arith) refl refl refl refl refl
      (λ e. refl)
