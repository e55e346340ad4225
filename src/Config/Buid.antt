-- ===== src/Config/Buid.antt =====
-- conf.cpp: `config_generate_uuid` and `config_get_system_buid`.
pub mod Shape
pub mod Stable
use usbmuxd_plugable_usb_msv.Prelude.{
  ℕ, zero, suc, ◌+◌, ◌-◌, ◌%◌, ◌^◌, List, [], ◌∷◌, Bool, true, false, ◌||◌, Option, none, some,
  ◌==◌, if◌then◌else◌, get_or, length,
}
use usbmuxd_plugable_usb_msv.World.Host.{Host}
use usbmuxd_plugable_usb_msv.Client.Reply.{codes}
use usbmuxd_plugable_usb_msv.Client.Plist.{is_string}
use usbmuxd_plugable_usb_msv.Config.{Disk, Platform, C, pure, ◌>>=◌, ◌>>◌, get_disk, deref}
use usbmuxd_plugable_usb_msv.Config.Values.{config_set_value, config_get_value}

-- The characters of an id.
abbrev pub chars : List ℕ
chars = codes "ABCDEF0123456789"

-- The places of the dashes.
abbrev pub is_dash : ℕ → Bool
is_dash i = i == 8 || (i == 13 || (i == 18 || i == 23))

-- `get_rand(0, 16)` on a number of `rand`
unfoldable pub get_rand : ℕ → ℕ
get_rand r = r % 16

-- The loop of `config_generate_uuid`, from place `i` on, after `drawn` numbers were drawn.
unfoldable pub uuid_from : ℕ → ℕ → ℕ → (ℕ → ℕ) → List ℕ
uuid_from zero i drawn rand = []
uuid_from (suc left) i drawn rand =
    if is_dash i
    then b'-' ∷ uuid_from left (i + 1) drawn rand
    else get_or chars (get_rand (rand drawn)) 0 ∷ uuid_from left (i + 1) (drawn + 1) rand

module _ (host : Host) (sys : Platform host) where
  -- `config_generate_uuid`; the seed is an `unsigned int`.
  unfoldable pub config_generate_uuid : ℕ → Disk → List ℕ
  config_generate_uuid idx d = uuid_from 36 0 0 (sys.rand ((sys.time d + 2 ^ 32 - idx) % 2 ^ 32))

  -- `config_generate_system_buid`
  unfoldable pub config_generate_system_buid : Disk → List ℕ
  config_generate_system_buid d = config_generate_uuid 1 d

  -- A value that is a string, copied; libplist gives no null pointer for one.
  unfoldable pub copy_string_val : Option host.Plist → C (Option (List ℕ))
  copy_string_val none = pure none
  copy_string_val (some value) =
      if is_string (host.plist_get_node_type value)
      then (do s ← deref (host.plist_get_string_val value); pure (some s))
      else pure none

  -- `config_set_system_buid`
  unfoldable pub config_set_system_buid : List ℕ → C ℕ
  config_set_system_buid system_buid =
      config_set_value host sys "SystemBUID" (host.plist_new_string system_buid)

  -- `config_get_system_buid`
  unfoldable pub config_get_system_buid : C (List ℕ)
  config_get_system_buid = do
    value ← config_get_value host sys "SystemBUID"
    found ← copy_string_val value
    elim found [
      | some system_buid ↦ pure system_buid
      | none ↦ do
        d ← get_disk
        let system_buid = config_generate_system_buid d
        config_set_system_buid system_buid
        pure system_buid
    ]
