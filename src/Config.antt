-- ===== src/Config.antt =====
-- conf.cpp: the state of the configuration store, and the platform that it stands on.
pub mod Files
pub mod Values
pub mod Buid
pub mod Records
pub mod Laws
use usbmuxd_plugable_usb_msv.Prelude.{
  ℕ, ◌-◌, ◌≡◌, true, Bool, List, Option, none, some, if◌then◌else◌,
}
use usbmuxd_plugable_usb_msv.World.Host.{Host}
use Prim.Native.String.{String}

-- What is found under each path, the directories that there are, and `__config_dir`. A file that
-- several paths name is found under each of them.
pub record Disk : Type 0 where
  pub files : List ℕ → Option (List ℕ)
  pub dirs : List ℕ → Bool
  pub config_dir : Option (List ℕ)

-- The table of files with one file replaced, under every path that names it.
abbrev pub update_file :
    (List ℕ → List ℕ → Bool)
    → (List ℕ → Option (List ℕ))
    → List ℕ
    → Option (List ℕ)
    → List ℕ
    → Option (List ℕ)
update_file same_file files path v q = if same_file path q then v else files q

-- How `mkdir` ends: the directory was made, or `errno` is `EEXIST`, or another error.
pub data Mkdir : Type 0 where
  made already refused : Mkdir

-- What conf.cpp calls and does not define: the C library, the shell folders, the random numbers,
-- and the part of libplist that no other file uses.
pub record Platform (host : Host) : Type 0 where
  -- `SHGetFolderPathA(CSIDL_COMMON_APPDATA)`
  pub base_config_dir : Option (List ℕ)
  pub mkdir : Disk → List ℕ → Mkdir
  -- `PathRemoveFileSpec`
  pub remove_file_spec : List ℕ → List ℕ
  -- Do two paths name one file? Windows compares them without regard to case, and follows the parts
  -- "." and "..".
  pub same_file : List ℕ → List ℕ → Bool
  pub same_file_refl : (path : List ℕ) → same_file path path ≡ true
  -- Does `remove` delete a file that is there?
  pub removes : Disk → List ℕ → Bool
  -- Does `fopen(path, "wb")` give a file?
  pub opens_for_write : Disk → List ℕ → Bool
  -- `errno` of a `remove` that fails
  pub remove_errno : Disk → List ℕ → ℕ
  -- `time(NULL)`, and the numbers that `rand` gives after `srand`
  pub time : Disk → ℕ
  pub rand : ℕ → ℕ → ℕ
  pub plist_from_bin : List ℕ → Option host.Plist
  pub plist_dict_remove_item : host.Plist → String → host.Plist

-- A function of conf.cpp: it changes the disk, and is nothing where it goes through a null pointer.
abbrev pub C : Type 0 → Type 0
C A = Disk → Option (A × Disk)

abbrev pub pure : {A : Type 0} → A → C A
pure a d = some (a, d)

infixl 5 ◌>>=◌ ◌>>◌
abbrev pub ◌>>=◌ : {A B : Type 0} → C A → (A → C B) → C B
◌>>=◌ m f d = elim (m d) [ none ↦ none | some (a, e) ↦ f a e ]

abbrev pub ◌>>◌ : {A B : Type 0} → C A → C B → C B
m >> k = m >>= λ _. k

-- A pointer that must not be null.
abbrev pub deref : {A : Type 0} → Option A → C A
deref none d = none
deref (some a) d = some (a, d)

abbrev pub get_disk : C Disk
get_disk d = some (d, d)

abbrev pub put_file : (List ℕ → List ℕ → Bool) → List ℕ → Option (List ℕ) → C (Unit {0})
put_file same_file path v d = some (tt, record d { files = update_file same_file d.files path v })
