-- ===== src/Config/Values/Stored.antt =====
-- conf.cpp: what `config_set_value` stores, `config_get_value` finds.
use usbmuxd_plugable_usb_msv.Prelude.{
  ℕ, ◌≡◌, ◌≢◌, inl, inr, refl, ap, ◌∙◌, List, Bool, ◌∷◌, ◌++◌, true, false, Option, none, some,
  arith, Bool-cases, Option-cases,
}
use Prim.Native.String.{String}
use usbmuxd_plugable_usb_msv.World.Host.{Host}
use usbmuxd_plugable_usb_msv.Client.Plist.{is_dict}
use usbmuxd_plugable_usb_msv.Config.{Disk, Platform}
use usbmuxd_plugable_usb_msv.Config.Files.{
  dir_sep, config_file_name, local_config_file, buffer_read_from_filename, config_has_local_config,
  plist_read_from_filename, config_path, string_concat, config_get_config_dir,
  config_create_config_dir,
}
use usbmuxd_plugable_usb_msv.Config.Laws.{Libplist, Writable, config_create_config_dir_at}
use usbmuxd_plugable_usb_msv.Config.Values.{
  with_value, internal_set_value, internal_get_value, config_set_value, config_get_value,
}
use usbmuxd_plugable_usb_msv.Config.Values.Written.{internal_set_value-Holds}

module _ (host : Host) (sys : Platform host) (laws : Libplist host sys)
    (w : Writable host sys) where
  -- The item of a dictionary that may be missing.
  abbrev pub item_of : Option host.Plist → String → Option host.Plist
  item_of config key = elim config [ none ↦ none | some c ↦ host.plist_dict_get_item c key ]

  -- A plist that was read, if there is one, is a dictionary.
  abbrev pub DictIn : Option host.Plist → Type 0
  DictIn config = (c : host.Plist) → config ≡ some c → is_dict (host.plist_get_node_type c) ≡ true

  with_value_same :
      (config : Option host.Plist) (key : String) (value : host.Plist)
      → DictIn config
      → host.plist_dict_get_item (with_value host sys config key value) key ≡ some value
  unfolding with_value
  with_value_same none key value dict = laws.get_set _ value key laws.new_dict
  with_value_same (some c) key value dict = elim (Option-cases (host.plist_dict_get_item c key)) [
    | inl e ↦ rw (e, with_value) (laws.get_set _ value key (dict c refl))
    | inr (_, e) ↦
        rw (e, with_value) (laws.get_set _ value key (laws.remove_dict c key (dict c refl)))
  ]

  with_value_other :
      (config : Option host.Plist) (key other : String) (value : host.Plist)
      → other ≢ key
      → DictIn config
      → host.plist_dict_get_item (with_value host sys config key value) other ≡ item_of config other
  unfolding with_value
  with_value_other none key other value ne dict =
      laws.get_set_other _ value key other ne laws.new_dict ∙ laws.get_new other
  with_value_other (some c) key other value ne dict =
      elim (Option-cases (host.plist_dict_get_item c key)) [
        | inl e ↦ rw (e, with_value) (laws.get_set_other _ value key other ne (dict c refl))
        | inr (_, e) ↦
            rw (e, with_value)
              (laws.get_set_other _ value key other ne (laws.remove_dict c key (dict c refl))
                ∙ laws.get_remove_other c key other ne (dict c refl))
      ]

  internal_get_value_read :
      (file : List ℕ) (key : String) (p : host.Plist) (e : Disk)
      → plist_read_from_filename host sys file e ≡ (true, some p)
      → internal_get_value host sys (some file) key e ≡ host.plist_dict_get_item p key
  unfolding internal_get_value
  internal_get_value_read file key p e h = ground (arith, h)

  internal_get_value_item :
      (file : List ℕ) (key : String) (d : Disk)
      → internal_get_value host sys (some file) key d
        ≡ item_of (plist_read_from_filename host sys file d).1 key
  unfolding internal_get_value
  internal_get_value_item file key d = refl

  config_has_local_config_text :
      (rest : List ℕ) (e : Disk)
      → e.files local_config_file ≡ some (60 ∷ rest)
      → config_has_local_config e ≡ true
  unfolding config_has_local_config
  config_has_local_config_text rest e h = ground (arith, h)

  config_has_local_config_same :
      (d e : Disk)
      → e.files local_config_file ≡ d.files local_config_file
      → config_has_local_config e ≡ config_has_local_config d
  unfolding config_has_local_config
  config_has_local_config_same d e h = rw (h, config_has_local_config) refl

  -- The two ends of `config_set_value`, for the file that it comes to.
  abbrev pub Stored : String → String → host.Plist → Disk → Type 0
  Stored key other value d =
      (e : Disk) × (config_set_value host sys key value d ≡ some (1, e))
      × (config_get_value host sys key e ≡ some (some value, e))
      × ((old : Option host.Plist) × (f : Disk) × (config_get_value host sys other d
            ≡ some (old, f))
          × (config_get_value host sys other e ≡ some (old, e)))

  Stored-locally :
      (key other : String) (value : host.Plist) (d : Disk)
      → other ≢ key
      → DictIn (plist_read_from_filename host sys local_config_file d).1
      → config_has_local_config d ≡ true
      → Stored key other value d
  unfolding config_set_value config_get_value
  Stored-locally key other value d ne dict here =
      let before = (plist_read_from_filename host sys local_config_file d).1 in
      let (e, set, (_, _, (rest, text, _), read, _)) =
        internal_set_value-Holds host sys laws w local_config_file key value d in
      let still = config_has_local_config_text rest e text in
      let found =
        internal_get_value_read local_config_file key _ e read
        ∙ with_value_same before key value dict in
      let kept =
        internal_get_value_read local_config_file other _ e read
        ∙ with_value_other before key other value ne dict in
      (
        e,
        ground (arith, here, set),
        ground (arith, still, found),
        (
          item_of before other,
          d,
          ground (arith, here, internal_get_value_item local_config_file other d),
          ground (arith, still, kept),
        ),
      )

  -- The file of the configuration in a directory.
  abbrev value_file : List ℕ → List ℕ
  value_file dir = dir ++ (dir_sep ∷ config_file_name)

  config_get_value_here :
      (key : String) (d : Disk)
      → config_has_local_config d ≡ true
      → config_get_value host sys key d
        ≡ some (internal_get_value host sys (some local_config_file) key d, d)
  unfolding config_get_value
  config_get_value_here key d here = ground (arith, here)

  config_get_value_away :
      (key : String) (dir : List ℕ) (d f : Disk)
      → config_has_local_config d ≡ false
      → config_get_config_dir host sys d ≡ some (some dir, f)
      → config_get_value host sys key d
        ≡ some (internal_get_value host sys (some (value_file dir)) key f, f)
  unfolding config_get_value config_path string_concat
  config_get_value_away key dir d f away known = ground (arith, away, known)

  config_get_config_dir_there :
      (dir : List ℕ) (e : Disk)
      → e.config_dir ≡ some dir
      → config_get_config_dir host sys e ≡ some (some dir, e)
  unfolding config_get_config_dir
  config_get_config_dir_there dir e there = ground (arith, there)

  internal_get_value_frame :
      (file : List ℕ) (key : String) (d : Disk) (dir : Option (List ℕ)) (dirs : List ℕ → Bool)
      → internal_get_value host sys (some file) key (record d { config_dir = dir })
        ≡ item_of
            (plist_read_from_filename host sys file (record d { config_dir = dir; dirs = dirs })).1
            key
  unfolding internal_get_value plist_read_from_filename buffer_read_from_filename
  internal_get_value_frame file key d dir dirs = refl

  config_set_value_away :
      (key : String) (value : host.Plist) (dir : List ℕ) (d d₁ e : Disk)
      → config_has_local_config d ≡ false
      → config_create_config_dir host sys d ≡ some (tt, d₁)
      → config_get_config_dir host sys d₁ ≡ some (some dir, d₁)
      → internal_set_value host sys (some (value_file dir)) key value d₁ ≡ some (1, e)
      → config_set_value host sys key value d ≡ some (1, e)
  unfolding config_set_value config_path string_concat
  config_set_value_away key value dir d d₁ e away made known set =
      ground (arith, away, made, known, set)

  -- The files of the configuration hold dictionaries, where they hold a plist.
  abbrev pub HoldsDicts : List ℕ → Disk → Type 0
  HoldsDicts dir d =
      DictIn (plist_read_from_filename host sys local_config_file d).1
      × DictIn (plist_read_from_filename host sys (value_file dir) d).1

  -- The directory of the configuration, known or looked up.
  abbrev pub ConfigIn : List ℕ → Disk → Type 0
  ConfigIn dir d =
      config_get_config_dir host sys d ≡ some (some dir, record d { config_dir = some dir })

  -- What was read does not depend on the directories.
  DictIn-record :
      (file : List ℕ) (d : Disk) (dir : Option (List ℕ)) (dirs : List ℕ → Bool)
      → DictIn (plist_read_from_filename host sys file d).1
      → DictIn
          (plist_read_from_filename host sys file (record d { config_dir = dir; dirs = dirs })).1
  unfolding plist_read_from_filename buffer_read_from_filename
  DictIn-record file d dir dirs h = h

  Stored-in_directory :
      (key other : String) (value : host.Plist) (d : Disk) (dir : List ℕ)
      → ConfigIn dir d
      → other ≢ key
      → DictIn (plist_read_from_filename host sys (value_file dir) d).1
      → config_has_local_config d ≡ false
      → Stored key other value d
  Stored-in_directory key other value d dir known ne holds away =
      let (dirs, made) = config_create_config_dir_at host sys w dir d known in
      let d₁ = record d { config_dir = some dir; dirs = dirs } in
      let file = value_file dir in
      let dict = DictIn-record file d (some dir) dirs holds in
      let (e, set, (there, _, _, read, rest)) =
        internal_set_value-Holds host sys laws w file key value d₁ in
      let before = (plist_read_from_filename host sys file d₁).1 in
      let still =
        config_has_local_config_same d e (rest local_config_file (w.local_apart dir)) ∙ away in
      let get : (k : String) → _ ≡ _ =
        λ k. config_get_value_away k dir e e still (config_get_config_dir_there dir e there) in
      let found =
        internal_get_value_read file key _ e read ∙ with_value_same before key value dict in
      let kept =
        internal_get_value_read file other _ e read
        ∙ with_value_other before key other value ne dict in
      (
        e,
        config_set_value_away key value dir d d₁ e away made
            (config_get_config_dir_there dir d₁ refl) set,
        get key ∙ ap (λ v. some (v, e)) found,
        (
          item_of before other,
          record d { config_dir = some dir },
          config_get_value_away other dir d _ away known
              ∙ ap (λ v. some (v, record d { config_dir = some dir }))
                  (internal_get_value_frame file other d (some dir) dirs),
          get other ∙ ap (λ v. some (v, e)) kept,
        ),
      )

  -- `config_get_value` always comes to an answer, and to the same when it is asked again; the
  -- directory and what the files hold stay.
  pub config_get_value_total :
      (key : String) (d : Disk) (dir : List ℕ)
      → ConfigIn dir d
      → HoldsDicts dir d
      → (v : Option host.Plist) × (f : Disk) × (config_get_value host sys key d ≡ some (v, f))
        × (config_get_value host sys key f ≡ some (v, f))
        × ConfigIn dir f
        × HoldsDicts dir f
  config_get_value_total key d dir known holds = elim (Bool-cases (config_has_local_config d)) [
    | inl here ↦ (
      internal_get_value host sys (some local_config_file) key d,
      d,
      config_get_value_here key d here,
      config_get_value_here key d here,
      known,
      holds,
    )
    | inr away ↦
        let f = record d { config_dir = some dir } in
        (
          internal_get_value host sys (some (value_file dir)) key f,
          f,
          config_get_value_away key dir d f away known,
          config_get_value_away key dir f f (config_has_local_config_same d f refl ∙ away)
              (config_get_config_dir_there dir f refl),
          config_get_config_dir_there dir f refl,
          (
            DictIn-record local_config_file d (some dir) d.dirs holds.0,
            DictIn-record (value_file dir) d (some dir) d.dirs holds.1,
          ),
        )
  ]

  -- Where the platform lets the program write, libplist keeps its word and the files of the
  -- configuration hold no plist but a dictionary, `config_set_value` succeeds; from then on
  -- `config_get_value` finds the value under its key and changes nothing, and under any other key it
  -- finds what it found before.
  pub config_set_value_lem :
      (key other : String) (value : host.Plist) (d : Disk) (dir : List ℕ)
      → ConfigIn dir d
      → HoldsDicts dir d
      → other ≢ key
      → Stored key other value d
  config_set_value_lem key other value d dir known holds ne =
      elim (Bool-cases (config_has_local_config d)) [
        | inl here ↦ Stored-locally key other value d ne holds.0 here
        | inr away ↦ Stored-in_directory key other value d dir known ne holds.1 away
      ]
