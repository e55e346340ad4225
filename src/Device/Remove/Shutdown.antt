-- ===== src/Device/Remove/Shutdown.antt =====
-- device.cpp: `device_shutdown` with a device that has not answered yet.
use usbmuxd_plugable_usb_msv.Prelude.{
  ℕ, ◌≡◌, inl, inr, refl, ◌∙◌, ap, sym, List, [], ◌∷◌, Option, none, some, arith, pos,
}
use usbmuxd_plugable_usb_msv.Collection
use usbmuxd_plugable_usb_msv.World.{World, MuxDevice}
use usbmuxd_plugable_usb_msv.World.Host.{Host}
use usbmuxd_plugable_usb_msv.World.Step.{done, fault}
use usbmuxd_plugable_usb_msv.Device.Ports.{ids_of}
use usbmuxd_plugable_usb_msv.Device.Lifecycle.{each_conn, new_device, device_add}
use usbmuxd_plugable_usb_msv.Device.Lifecycle.Listing.{device_add_lem}
use usbmuxd_plugable_usb_msv.Device.Remove.{shut_devices, device_shutdown}

taken-add_slot_first :
    (l : List (Option ℕ)) (x : ℕ)
    → Collection.taken l ≡ []
    → Collection.taken (Collection.add_slot l x) ≡ x ∷ []
unfolding Collection.taken Collection.add_slot
taken-add_slot_first [] x h = refl
taken-add_slot_first (none ∷ rest) x h = ap (◌∷◌ x) h
taken-add_slot_first (some y ∷ rest) x h = cc

-- The first element that a collection gets is its only one.
items-add_first :
    (col : Collection.Collection) (x : ℕ)
    → Collection.items col ≡ []
    → Collection.items (Collection.add col x) ≡ x ∷ []
unfolding Collection.items Collection.add
items-add_first col x h = taken-add_slot_first col.list x h

module _ (host : Host) where
  device_shutdown_uninitialised :
      (dev : ℕ) (rest : List ℕ) (d : MuxDevice) (w : World)
      → Collection.items w.device_list ≡ dev ∷ rest
      → w.devices dev ≡ some d
      → d.connections ≡ none
      → device_shutdown host w ≡ fault
  unfolding device_shutdown shut_devices each_conn
  device_shutdown_uninitialised dev rest d w items there bare = ground (arith, items, there, bare)

  new_device-connections : (usbdev id : ℕ) → (new_device usbdev id).connections ≡ none
  unfolding new_device
  new_device-connections usbdev id = refl

  no_ids :
      (w : World)
      → Collection.items w.device_list ≡ []
      → ids_of (Collection.items w.device_list) w ≡ done [] w
  unfolding ids_of
  no_ids w h = ground (arith, h)

  -- If no device was listed and `device_add` has succeeded, `device_shutdown` comes to a fault: the
  -- device has no collection of connections until its version packet comes.
  pub device_shutdown-device_add :
      (usbdev : ℕ) (w v : World)
      → Collection.items w.device_list ≡ []
      → device_add host usbdev w ≡ done (pos 0) v
      → device_shutdown host v ≡ fault
  device_shutdown-device_add usbdev w v alone added =
      let (id, _, ends) = device_add_lem host usbdev [] w (no_ids w alone) in
      elim ends [
        | inl (_, overflow) ↦ absurd (ground (arith, sym overflow ∙ added))
        | inr (_, (packet, _, _, (devices, inl (failed, _, refused)))) ↦
            absurd (ground (arith, failed, sym refused ∙ added))
        | inr (_, (packet, _, _, (devices, inr (_, (there, _), went)))) ↦
            let same = sym went ∙ added in
            device_shutdown_uninitialised w.next_address [] (new_device usbdev id) v
              (ground (arith, same, items-add_first w.device_list w.next_address alone))
              (ground (arith, same, there)) (new_device-connections usbdev id)
      ]
