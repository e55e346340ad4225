-- ===== src/Config/Values/Written.antt =====
-- conf.cpp, utils.cpp: a plist that is written to a file is read back from it.
use usbmuxd_plugable_usb_msv.Prelude.{
  ℕ, ◌≡◌, inl, inr, refl, ◌∙◌, List, ◌∷◌, true, false, none, some, arith, Option-cases,
}
use Prim.Native.String.{String}
use usbmuxd_plugable_usb_msv.World.Host.{Host}
use usbmuxd_plugable_usb_msv.Client.Plist.{bytes_eq}
use usbmuxd_plugable_usb_msv.Config.{Disk, Platform, update_file}
use usbmuxd_plugable_usb_msv.Config.Files.{
  buffer_read_from_filename, plist_read_from_filename, plist_from_buffer, plist_write_to_filename,
  buffer_write_to_filename,
}
use usbmuxd_plugable_usb_msv.Config.Laws.{
  Libplist, Writable, update_file_same, update_file_other, remove_cases,
}
use usbmuxd_plugable_usb_msv.Config.Values.{with_value, drop_old, internal_set_value}

module _ (host : Host) (sys : Platform host) (laws : Libplist host sys)
    (w : Writable host sys) where
  -- The file holds a plist, and nothing else has changed.
  abbrev pub Holds : List ℕ → host.Plist → Disk → Disk → Type 0
  Holds file p d e =
      (e.config_dir ≡ d.config_dir)
      × (e.dirs ≡ d.dirs)
      × ((rest : List ℕ) × (e.files file ≡ some (60 ∷ rest))
          × (host.plist_from_xml (60 ∷ rest) ≡ some p))
      × (plist_read_from_filename host sys file e ≡ (true, some p))
      × ((q : List ℕ) → sys.same_file file q ≡ false → e.files q ≡ d.files q)

  pub plist_read_from_filename_xml :
      (file rest : List ℕ) (p : host.Plist) (e : Disk)
      → e.files file ≡ some (60 ∷ rest)
      → host.plist_from_xml (60 ∷ rest) ≡ some p
      → plist_read_from_filename host sys file e ≡ (true, some p)
  unfolding plist_read_from_filename buffer_read_from_filename plist_from_buffer bytes_eq
  plist_read_from_filename_xml file rest p e found parsed = ground (arith, found, parsed)

  pub plist_write_to_filename-Holds :
      (file : List ℕ) (p : host.Plist) (d : Disk)
      → (e : Disk) × (plist_write_to_filename host sys p file d ≡ some (true, e)) × Holds file p d e
  unfolding plist_write_to_filename buffer_write_to_filename
  plist_write_to_filename-Holds file p d =
      let (rest, written, parsed) = laws.xml p in
      let e = record d { files = update_file sys.same_file d.files file (some (60 ∷ rest)) } in
      let found = update_file_same host sys d.files file (some (60 ∷ rest)) in
      (
        e,
        ground (arith, written, w.opens d file),
        (
          refl,
          refl,
          (rest, found, parsed),
          plist_read_from_filename_xml file rest p e found parsed,
          λ q ne. update_file_other host sys d.files file q (some (60 ∷ rest)) ne,
        ),
      )

  -- `internal_set_value` succeeds.
  pub internal_set_value-Holds :
      (file : List ℕ) (key : String) (value : host.Plist) (d : Disk)
      → (e : Disk) × (internal_set_value host sys (some file) key value d ≡ some (1, e))
        × Holds file
            (with_value host sys (plist_read_from_filename host sys file d).1 key value)
            d
            e
  unfolding internal_set_value drop_old
  internal_set_value-Holds file key value d =
      elim (Option-cases (plist_read_from_filename host sys file d).1) [
        | inl nothing ↦
            let (e, written, held) =
              plist_write_to_filename-Holds file (with_value host sys none key value) d in
            (e, ground (arith, nothing, written), rw nothing held)
        | inr (config, found) ↦
            let (is_removed, files, removed, apart) = remove_cases host sys file d in
            let (e, written, (dir, dirs, text, read, rest)) =
              plist_write_to_filename-Holds file (with_value host sys (some config) key value)
                (record d { files = files }) in
            (
              e,
              ground (arith, found, removed, written),
              rw found (dir, dirs, text, read, λ q ne. rest q ne ∙ apart q ne),
            )
      ]
