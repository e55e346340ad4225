-- ===== src/Config/Buid/Shape.antt =====
-- conf.cpp: what `config_generate_uuid` generates.
use usbmuxd_plugable_usb_msv.Prelude.{
  ℕ, zero, suc, ◌+◌, ◌%◌, ◌<◌, ◌≡◌, ◌⊎◌, inl, inr, refl, List, true, false, some, arith, length,
  get_elem?, get_or, Bool-cases, ap, ◌∙◌,
}
use usbmuxd_plugable_usb_msv.World.Host.{Host}
use usbmuxd_plugable_usb_msv.Config.{Disk, Platform}
use usbmuxd_plugable_usb_msv.Config.Buid.{chars, is_dash, get_rand, uuid_from, config_generate_uuid}

-- A place of an id holds a dash where it should, and one of the sixteen characters elsewhere.
abbrev pub HoldsAt : List ℕ → ℕ → ℕ → Type 0
HoldsAt id j i =
    ((is_dash i ≡ true) × (get_elem? id j ≡ some b'-'))
    ⊎ ((is_dash i ≡ false) × ((k : ℕ) × (k < 16) × (get_elem? id j ≡ some (get_or chars k 0))))

length-uuid_from : (left i drawn : ℕ) (rand : ℕ → ℕ) → length (uuid_from left i drawn rand) ≡ left
unfolding uuid_from
length-uuid_from zero i drawn rand = refl
length-uuid_from (suc left) i drawn rand = elim (Bool-cases (is_dash i)) [
  | inl e ↦ rw (e, uuid_from) (omega (arith, length-uuid_from left (i + 1) drawn rand))
  | inr e ↦ rw (e, uuid_from) (omega (arith, length-uuid_from left (i + 1) (drawn + 1) rand))
]

uuid_from-HoldsAt :
    (left i drawn : ℕ) (rand : ℕ → ℕ) (j k : ℕ)
    → k ≡ i + j
    → j < left
    → HoldsAt (uuid_from left i drawn rand) j k
unfolding uuid_from get_rand
uuid_from-HoldsAt zero i drawn rand j k e h = absurd (omega arith)
uuid_from-HoldsAt (suc left) i drawn rand zero k e h = elim (Bool-cases (is_dash i)) [
  | inl dash ↦ rw (dash, uuid_from) (inl (ap is_dash (here e) ∙ dash, refl))
  | inr char ↦
      rw (char, uuid_from) (inr (ap is_dash (here e) ∙ char, (rand drawn % 16, omega arith, refl)))
]
  where
    here : k ≡ i + 0 → k ≡ i
    here p = omega arith
uuid_from-HoldsAt (suc left) i drawn rand (suc j) k e h = elim (Bool-cases (is_dash i)) [
  | inl dash ↦
      rw (dash, uuid_from)
        (uuid_from-HoldsAt left (i + 1) drawn rand j k (omega arith) (omega arith))
  | inr char ↦
      rw (char, uuid_from)
        (uuid_from-HoldsAt left (i + 1) (drawn + 1) rand j k (omega arith) (omega arith))
]

module _ (host : Host) (sys : Platform host) where
  -- An id has 36 characters: dashes at the places 8, 13, 18 and 23, and at all others letters from
  -- A to F and digits, whatever the clock and `rand` say.
  pub config_generate_uuid_lem :
      (idx : ℕ) (d : Disk) (j : ℕ)
      → j < 36
      → (length (config_generate_uuid host sys idx d) ≡ 36)
        × HoldsAt (config_generate_uuid host sys idx d) j j
  unfolding config_generate_uuid
  config_generate_uuid_lem idx d j h =
      (length-uuid_from 36 0 0 _, uuid_from-HoldsAt 36 0 0 _ j j (omega arith) h)
