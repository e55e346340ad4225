-- ===== src/Config/Files.antt =====
-- utils.cpp: files and plists in files; conf.cpp: the configuration directory.
use usbmuxd_plugable_usb_msv.Prelude.{
  ℕ, zero, suc, List, [], ◌∷◌, ◌++◌, Bool, true, false, ◌&&◌, Option, none, some, ltb, ◌==◌,
  if◌then◌else◌, length, take, ℤ, pos,
}
use usbmuxd_plugable_usb_msv.World.Host.{Host}
use usbmuxd_plugable_usb_msv.Client.Reply.{codes}
use usbmuxd_plugable_usb_msv.Client.Plist.{bytes_eq}
use usbmuxd_plugable_usb_msv.Config.{
  Disk, Platform, made, already, refused, C, pure, ◌>>=◌, ◌>>◌, deref, get_disk, put_file,
}

-- `DIR_SEP`
abbrev pub dir_sep : ℕ
dir_sep = 92

-- `CONFIG_EXT`
abbrev pub config_ext : List ℕ
config_ext = codes ".plist"

-- `CONFIG_DIR`
abbrev pub config_dir_name : List ℕ
config_dir_name = codes "MCE-100" ++ (dir_sep ∷ codes "Sessions")

-- `CONFIG_FILE`
abbrev pub config_file_name : List ℕ
config_file_name = codes "SystemConfiguration" ++ config_ext

-- `LOCAL_CONFIG_FILE`
abbrev pub local_config_file : List ℕ
local_config_file = codes "etc" ++ (dir_sep ∷ codes "LockdownConfiguration") ++ config_ext

-- "bplist00"
abbrev pub binary_magic : List ℕ
binary_magic = codes "bplist00"

-- `buffer_read_from_filename`; an empty file leaves the buffer as it was, a null pointer.
unfoldable pub buffer_read_from_filename : List ℕ → Disk → Option (List ℕ)
buffer_read_from_filename filename d = elim (d.files filename) [
  | none ↦ none
  | some contents ↦ if length contents == 0 then none else some contents
]

-- `string_concat` of strings, the first of which may be null.
unfoldable pub string_concat : Option (List ℕ) → List ℕ → Option (List ℕ)
string_concat none rest = none
string_concat (some str) rest = some (str ++ rest)

-- The loop of `config_get_config_dir` that takes separators off the end, but not the first byte.
unfoldable pub strip_end : List ℕ → List ℕ
strip_end [] = []
strip_end (b ∷ bs) = b ∷ strip_rest bs
  where
    strip_rest : List ℕ → List ℕ
    strip_rest [] = []
    strip_rest (c ∷ cs) = elim (strip_rest cs) [
      | [] ↦ if c == dir_sep then [] else c ∷ []
      | e ∷ es ↦ c ∷ e ∷ es
    ]

-- `config_has_local_config`
unfoldable pub config_has_local_config : Disk → Bool
config_has_local_config d = elim (d.files local_config_file) [
  | none ↦ false
  | some contents ↦ ltb 0 (length contents)
]

module _ (host : Host) (sys : Platform host) where
  -- `remove`: is the file deleted?
  unfoldable pub remove : List ℕ → C Bool
  remove filename = do
    d ← get_disk
    elim (d.files filename) [
      | none ↦ pure false
      | some _ ↦
          if sys.removes d filename
          then (put_file sys.same_file filename none >> pure true)
          else pure false
    ]

  -- `buffer_write_to_filename`: where the file cannot be opened nothing happens. Without a buffer,
  -- `fwrite` reads through a null pointer.
  unfoldable pub buffer_write_to_filename : List ℕ → Option (List ℕ) → C (Unit {0})
  buffer_write_to_filename filename buffer = do
    d ← get_disk
    if sys.opens_for_write d filename
        then (do contents ← deref buffer; put_file sys.same_file filename (some contents))
        else pure tt

  -- `plist_write_to_filename` in the XML format; it does not see whether the file was written.
  unfoldable pub plist_write_to_filename : host.Plist → List ℕ → C Bool
  plist_write_to_filename plist filename =
      buffer_write_to_filename filename (host.plist_to_xml plist) >> pure true

  -- The plist in a buffer, binary or XML by its first bytes.
  unfoldable pub plist_from_buffer : List ℕ → Option host.Plist
  plist_from_buffer buffer =
      if ltb 8 (length buffer) && bytes_eq (take 8 buffer) binary_magic
      then sys.plist_from_bin buffer
      else host.plist_from_xml buffer

  -- `plist_read_from_filename`: whether there was something to read, and the plist in it.
  unfoldable pub plist_read_from_filename : List ℕ → Disk → Bool × Option host.Plist
  plist_read_from_filename filename d = elim (buffer_read_from_filename filename d) [
    | none ↦ (false, none)
    | some buffer ↦ (true, plist_from_buffer buffer)
  ]

  -- `config_get_config_dir`
  unfoldable pub config_get_config_dir : C (Option (List ℕ))
  config_get_config_dir = do
    d ← get_disk
    elim d.config_dir [
      | some dir ↦ pure (some dir)
      | none ↦ elim sys.base_config_dir [
        | none ↦ pure none
        | some base ↦
            let dir = strip_end (base ++ (dir_sep ∷ config_dir_name)) in
            λ e. some (some dir, record e { config_dir = some dir })
      ]
    ]

  -- `dirname` of the Windows build
  unfoldable pub dirname : List ℕ → List ℕ
  dirname [] = codes "."
  dirname (b ∷ bs) = sys.remove_file_spec (b ∷ bs)

  -- `mkdir_with_parents`, with a bound on the parents that are tried. It makes a parent and does not
  -- come back to the directory.
  unfoldable pub mkdir_with_parents : ℕ → List ℕ → C ℤ
  mkdir_with_parents zero dir d = none
  mkdir_with_parents (suc fuel) dir d = elim (sys.mkdir d dir) [
    | made ↦ some (pos 0, record d { dirs = λ q. if sys.same_file dir q then true else d.dirs q })
    | already ↦ some (pos 0, d)
    | refused ↦ mkdir_with_parents fuel (dirname dir) d
  ]

  -- `config_create_config_dir`; `stat` takes no null pointer.
  unfoldable pub config_create_config_dir : C (Unit {0})
  config_create_config_dir = do
    found ← config_get_config_dir
    dir ← deref found
    d ← get_disk
    if d.dirs dir then pure tt else (mkdir_with_parents (suc (length dir)) dir >> pure tt)

  -- The file of a name in the configuration directory.
  unfoldable pub config_path : List ℕ → C (Option (List ℕ))
  config_path name = do dir ← config_get_config_dir; pure (string_concat dir (dir_sep ∷ name))
