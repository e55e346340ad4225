-- ===== src/Config/Laws.antt =====
-- What the theorems on conf.cpp take from libplist and from the platform, and what follows for the
-- table of files and for the configuration directory.
use usbmuxd_plugable_usb_msv.Prelude.{
  ℕ, ◌≡◌, ◌≢◌, ◌⊎◌, inl, inr, refl, List, [], ◌∷◌, ◌++◌, Bool, true, false, Option, none, some,
  arith, Option-cases, Bool-cases, if◌then◌else◌,
}
use Prim.Native.String.{String}
use usbmuxd_plugable_usb_msv.World.Host.{Host, plist_string}
use usbmuxd_plugable_usb_msv.Client.Plist.{bytes_eq, is_dict}
use usbmuxd_plugable_usb_msv.Config.{Disk, Platform, made, already, update_file}
use usbmuxd_plugable_usb_msv.Config.Files.{
  dir_sep, config_dir_name, config_file_name, local_config_file, strip_end, remove,
  config_get_config_dir, config_create_config_dir, mkdir_with_parents,
}

-- libplist: what is written as XML is read back, and starts with "<"; a dictionary, and
-- no other plist, gives back what was set; a string node has a value.
pub record Libplist (host : Host) (sys : Platform host) : Type 0 where
  pub xml :
      (p : host.Plist)
      → (rest : List ℕ) × (host.plist_to_xml p ≡ some (60 ∷ rest))
        × (host.plist_from_xml (60 ∷ rest) ≡ some p)
  pub get_set :
      (d v : host.Plist) (k : String)
      → is_dict (host.plist_get_node_type d) ≡ true
      → host.plist_dict_get_item (host.plist_dict_set_item d k v) k ≡ some v
  pub get_set_other :
      (d v : host.Plist) (k l : String)
      → l ≢ k
      → is_dict (host.plist_get_node_type d) ≡ true
      → host.plist_dict_get_item (host.plist_dict_set_item d k v) l ≡ host.plist_dict_get_item d l
  pub get_remove_other :
      (d : host.Plist) (k l : String)
      → l ≢ k
      → is_dict (host.plist_get_node_type d) ≡ true
      → host.plist_dict_get_item (sys.plist_dict_remove_item d k) l ≡ host.plist_dict_get_item d l
  pub remove_dict :
      (d : host.Plist) (k : String)
      → is_dict (host.plist_get_node_type d) ≡ true
      → is_dict (host.plist_get_node_type (sys.plist_dict_remove_item d k)) ≡ true
  pub new_dict : is_dict (host.plist_get_node_type host.plist_new_dict) ≡ true
  pub get_new : (k : String) → host.plist_dict_get_item host.plist_new_dict k ≡ none
  pub string_type : (s : List ℕ) → host.plist_get_node_type (host.plist_new_string s) ≡ plist_string
  pub string_new : (s : List ℕ) → host.plist_get_string_val (host.plist_new_string s) ≡ some s
  pub string_val :
      (p : host.Plist)
      → host.plist_get_node_type p ≡ plist_string
      → (s : List ℕ) × (host.plist_get_string_val p ≡ some s)

-- The platform lets the program write: the shell knows the folder, directories can be made,
-- files can be opened, and the local configuration is not the file of the directory.
pub record Writable (host : Host) (sys : Platform host) : Type 0 where
  pub base : List ℕ
  pub base_known : sys.base_config_dir ≡ some base
  pub mkdir_works : (d : Disk) (q : List ℕ) → (sys.mkdir d q ≡ made) ⊎ (sys.mkdir d q ≡ already)
  pub opens : (d : Disk) (q : List ℕ) → sys.opens_for_write d q ≡ true
  pub local_apart :
      (dir : List ℕ) → sys.same_file (dir ++ (dir_sep ∷ config_file_name)) local_config_file ≡ false

pub bytes_eq_refl : (xs : List ℕ) → bytes_eq xs xs ≡ true
unfolding bytes_eq
bytes_eq_refl [] = refl
bytes_eq_refl (x ∷ xs) = ground (arith, bytes_eq_refl xs)

pub bytes_eq→≡ : (xs ys : List ℕ) → bytes_eq xs ys ≡ true → xs ≡ ys
unfolding bytes_eq
bytes_eq→≡ [] [] h = refl
bytes_eq→≡ [] (y ∷ ys) h = cc
bytes_eq→≡ (x ∷ xs) [] h = cc
bytes_eq→≡ (x ∷ xs) (y ∷ ys) h = ground (arith, bytes_eq→≡ xs ys)

module _ (host : Host) (sys : Platform host) where
  pub update_file_same :
      (files : List ℕ → Option (List ℕ)) (path : List ℕ) (v : Option (List ℕ))
      → update_file sys.same_file files path v path ≡ v
  update_file_same files path v = ground (arith, sys.same_file_refl path)

  pub update_file_other :
      (files : List ℕ → Option (List ℕ)) (path q : List ℕ) (v : Option (List ℕ))
      → sys.same_file path q ≡ false
      → update_file sys.same_file files path v q ≡ files q
  update_file_other files path q v other = ground (arith, other)

  -- `remove` deletes the file or leaves everything; other files stay.
  pub remove_cases :
      (file : List ℕ) (d : Disk)
      → (is_removed : Bool) × (files : List ℕ → Option (List ℕ)) × (remove host sys file d
          ≡ some (is_removed, record d { files = files }))
        × ((q : List ℕ) → sys.same_file file q ≡ false → files q ≡ d.files q)
  unfolding remove
  remove_cases file d = elim (Option-cases (d.files file)) [
    | inl e ↦ (false, d.files, ground (arith, e), λ q other. refl)
    | inr (_, e) ↦ elim (Bool-cases (sys.removes d file)) [
      | inr kept ↦ (false, d.files, ground (arith, e, kept), λ q other. refl)
      | inl gone ↦ (
        true,
        update_file sys.same_file d.files file none,
        ground (arith, e, gone),
        λ q other. update_file_other d.files file q none other,
      )
    ]
  ]

module _ (host : Host) (sys : Platform host) (w : Writable host sys) where
  -- Once it was looked up, the directory is known.
  pub config_get_config_dir_known :
      (d : Disk)
      → (dir : List ℕ) × (config_get_config_dir host sys d
          ≡ some (some dir, record d { config_dir = some dir }))
  unfolding config_get_config_dir
  config_get_config_dir_known d = elim (Option-cases d.config_dir) [
    | inl e ↦ (strip_end (w.base ++ (dir_sep ∷ config_dir_name)), ground (arith, e, w.base_known))
    | inr (dir, e) ↦ (dir, ground (arith, e))
  ]

  pub config_get_config_dir_again :
      (dir : List ℕ) (d : Disk)
      → d.config_dir ≡ some dir
      → config_get_config_dir host sys d ≡ some (some dir, record d { config_dir = some dir })
  unfolding config_get_config_dir
  config_get_config_dir_again dir d e = ground (arith, e)

  pub config_create_config_dir_at :
      (dir : List ℕ) (d : Disk)
      → config_get_config_dir host sys d ≡ some (some dir, record d { config_dir = some dir })
      → (dirs : List ℕ → Bool) × (config_create_config_dir host sys d
          ≡ some (tt, record d { config_dir = some dir; dirs = dirs }))
  unfolding config_create_config_dir mkdir_with_parents
  config_create_config_dir_at dir d known = elim (Bool-cases (d.dirs dir)) [
    | inl there ↦ (d.dirs, ground (arith, known, there))
    | inr missing ↦ elim (w.mkdir_works (record d { config_dir = some dir }) dir) [
      | inl made_it ↦ (
        λ q. if sys.same_file dir q then true else d.dirs q,
        ground (arith, known, missing, made_it),
      )
      | inr had_it ↦ (d.dirs, ground (arith, known, missing, had_it))
    ]
  ]

  -- `config_create_config_dir` leaves the files as they are, and the directory is known.
  pub config_create_config_dir_works :
      (d : Disk)
      → (dir : List ℕ) × (dirs : List ℕ → Bool) × (config_create_config_dir host sys d
          ≡ some (tt, record d { config_dir = some dir; dirs = dirs }))
        × (config_get_config_dir host sys d ≡ some (some dir, record d { config_dir = some dir }))
  config_create_config_dir_works d =
      let (dir, known) = config_get_config_dir_known d in
      let (dirs, created) = config_create_config_dir_at dir d known in (dir, dirs, created, known)
