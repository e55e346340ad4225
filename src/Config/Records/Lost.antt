-- ===== src/Config/Records/Lost.antt =====
-- conf.cpp: a pairing record is not stored when its file cannot be written.
use usbmuxd_plugable_usb_msv.Prelude.{
  ℕ, ◌≤◌, ◌≡◌, ◌⊎◌, inl, inr, refl, ap, ◌∙◌, Bool, Option, Bool-cases, Option-cases, List, true,
  false, none, some, arith, length, pos, neg,
}
use usbmuxd_plugable_usb_msv.World.Host.{Host, plist_dict}
use usbmuxd_plugable_usb_msv.Client.Plist.{enoent}
use usbmuxd_plugable_usb_msv.Config.{Disk, Platform, update_file}
use usbmuxd_plugable_usb_msv.Config.Laws.{update_file_same}
use usbmuxd_plugable_usb_msv.Config.Files.{
  remove, buffer_read_from_filename, config_path, string_concat, config_get_config_dir,
  config_create_config_dir, plist_write_to_filename, buffer_write_to_filename,
}
use usbmuxd_plugable_usb_msv.Config.Records.{
  device_record_file, record_plist, store_record, config_set_device_record,
  config_get_device_record,
}
use usbmuxd_plugable_usb_msv.Config.Records.Kept.{record_path, record_answer}

module _ (host : Host) (sys : Platform host) where
  config_create_config_dir_there :
      (dir : List ℕ) (d : Disk)
      → d.config_dir ≡ some dir
      → d.dirs dir ≡ true
      → config_create_config_dir host sys d ≡ some (tt, d)
  unfolding config_create_config_dir config_get_config_dir
  config_create_config_dir_there dir d known there = ground (arith, known, there)

  store_record_shut :
      (dir udid : List ℕ) (p : host.Plist) (d : Disk)
      → d.config_dir ≡ some dir
      → d.dirs dir ≡ true
      → (files : List ℕ → Option (List ℕ)) (is_removed : Bool)
      → remove host sys (record_path dir udid) d ≡ some (is_removed, record d { files = files })
      → sys.opens_for_write (record d { files = files }) (record_path dir udid) ≡ false
      → store_record host sys udid p d ≡ some (pos 0, record d { files = files })
  unfolding store_record device_record_file config_path string_concat config_get_config_dir
      plist_write_to_filename buffer_write_to_filename
  store_record_shut dir udid p d known there files is_removed removed shut =
      ground (arith, config_create_config_dir_there dir d known there, known, removed, shut)

  config_get_device_record_there :
      (dir udid : List ℕ) (d : Disk)
      → d.config_dir ≡ some dir
      → d.dirs dir ≡ true
      → config_get_device_record host sys udid d
        ≡ some (record_answer (buffer_read_from_filename (record_path dir udid) d), d)
  unfolding config_get_device_record device_record_file config_path string_concat
      config_get_config_dir
  config_get_device_record_there dir udid d known there =
      elim (Option-cases (buffer_read_from_filename (record_path dir udid) d)) [
        | inl e ↦ ground (arith, config_create_config_dir_there dir d known there, known, e)
        | inr (_, e) ↦ ground (arith, config_create_config_dir_there dir d known there, known, e)
      ]

  read_nothing :
      (path : List ℕ) (d : Disk) → d.files path ≡ none → buffer_read_from_filename path d ≡ none
  unfolding buffer_read_from_filename
  read_nothing path d e = ground (arith, e)

  config_set_device_record_stores :
      (udid contents : List ℕ) (p : host.Plist) (d : Disk)
      → 8 ≤ length contents
      → record_plist host sys contents ≡ some p
      → host.plist_get_node_type p ≡ plist_dict
      → config_set_device_record host sys udid contents d ≡ store_record host sys udid p d
  unfolding config_set_device_record
  config_set_device_record_stores udid contents p d long parsed dict =
      ground (arith, long, parsed, dict)

  -- When the file of a record cannot be opened for writing, although its directory and an old record
  -- are there, `config_set_device_record` still returns 0 for data that holds a dictionary, and
  -- nothing of the data is stored. If the old file could be removed, the old record is lost and
  -- `config_get_device_record` answers -ENOENT; if not, nothing has changed, and it answers with what
  -- it reads of the old file.
  pub config_set_device_record_unstored :
      (dir udid contents old : List ℕ) (p : host.Plist) (d : Disk)
      → 8 ≤ length contents
      → record_plist host sys contents ≡ some p
      → host.plist_get_node_type p ≡ plist_dict
      → d.config_dir ≡ some dir
      → d.dirs dir ≡ true
      → d.files (record_path dir udid) ≡ some old
      → ((e : Disk) → sys.opens_for_write e (record_path dir udid) ≡ false)
      → (e : Disk) × (config_set_device_record host sys udid contents d ≡ some (pos 0, e))
        × (((sys.removes d (record_path dir udid) ≡ true)
              × (e.files (record_path dir udid) ≡ none)
              × (config_get_device_record host sys udid e ≡ some ((none, neg enoent), e)))
            ⊎ ((sys.removes d (record_path dir udid) ≡ false)
                × (e ≡ d)
                × (config_get_device_record host sys udid e
                    ≡ some
                        (record_answer (buffer_read_from_filename (record_path dir udid) d), d))))
  unfolding remove
  config_set_device_record_unstored dir udid contents old p d long parsed dict known there had
        shut =
      let path = record_path dir udid in
      let stores = config_set_device_record_stores udid contents p d long parsed dict in
      elim (Bool-cases (sys.removes d path)) [
        | inl gone ↦
            let files = update_file sys.same_file d.files path none in
            let e = record d { files = files } in
            let nothing = update_file_same host sys d.files path none in
            (
              e,
              stores
                  ∙ store_record_shut dir udid p d known there files true
                      (ground (arith, had, gone)) (shut e),
              inl (
                gone,
                nothing,
                config_get_device_record_there dir udid e known there
                    ∙ ap (λ b. some (record_answer b, e)) (read_nothing path e nothing),
              ),
            )
        | inr kept ↦ (
          d,
          stores
              ∙ store_record_shut dir udid p d known there d.files false (ground (arith, had, kept))
                  (shut d),
          inr (kept, refl, config_get_device_record_there dir udid d known there),
        )
      ]
