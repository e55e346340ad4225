-- ===== src/Client/Notify/Halting.antt =====
-- client.cpp: the broadcasts to listening clients end.
use usbmuxd_plugable_usb_msv.Prelude.{ℕ, List, [], ◌∷◌, ◌==◌, ℤ, pos}
use usbmuxd_plugable_usb_msv.Collection
use usbmuxd_plugable_usb_msv.World.{DeviceInfo}
use usbmuxd_plugable_usb_msv.World.Host.{Host}
use usbmuxd_plugable_usb_msv.World.Step.{M, load_client}
use usbmuxd_plugable_usb_msv.World.Step.Ends.{
  Halts, Halts-bind, Halts-if, Halts-pure, Halts-load_client, Halts-when,
}
use usbmuxd_plugable_usb_msv.Client.Reply.Halting.{send_plist_pkt-Halts, send_pkt-Halts}
use usbmuxd_plugable_usb_msv.Client.Notify.{
  broadcast, notify_device_remove, client_device_remove, notify_pairing_event,
  client_device_pairing_event, client_device_removed_during_add, client_device_error_already_exits,
}

module _ (host : Host) where
  broadcast-Halts :
      (notify : ℕ → M ℤ) (ps : List ℕ)
      → ((p : ℕ) → Halts (notify p))
      → Halts (broadcast host notify ps)
  unfolding broadcast
  broadcast-Halts notify [] h = Halts-pure tt
  broadcast-Halts notify (p ∷ ps) h = Halts-bind (load_client p) _ (Halts-load_client p) λ c.
      Halts-bind _ _ (Halts-when _ _ (Halts-bind (notify p) _ (h p) (λ _. Halts-pure tt)))
        (λ _. broadcast-Halts notify ps h)

  notify_pairing_event-Halts :
      (dev : DeviceInfo) (event : List ℕ) (p : ℕ) → Halts (notify_pairing_event host dev event p)
  unfolding notify_pairing_event
  notify_pairing_event-Halts dev event p = Halts-bind (load_client p) _ (Halts-load_client p) λ c.
      Halts-if (c.proto_version == 1) _ _ (send_plist_pkt-Halts host p 0 _) (Halts-pure (pos 0))

  pub client_device_error_already_exits-Halts :
      (dev : DeviceInfo) → Halts (client_device_error_already_exits host dev)
  unfolding client_device_error_already_exits client_device_pairing_event
  client_device_error_already_exits-Halts dev w =
      broadcast-Halts _ (Collection.items w.client_list) (notify_pairing_event-Halts dev _) w

  pub client_device_removed_during_add-Halts :
      (dev : DeviceInfo) → Halts (client_device_removed_during_add host dev)
  unfolding client_device_removed_during_add client_device_pairing_event
  client_device_removed_during_add-Halts dev w =
      broadcast-Halts _ (Collection.items w.client_list) (notify_pairing_event-Halts dev _) w

  pub client_device_remove-Halts : (device_id : ℕ) → Halts (client_device_remove host device_id)
  unfolding client_device_remove notify_device_remove
  client_device_remove-Halts device_id w =
      broadcast-Halts _ (Collection.items w.client_list)
        (λ p. Halts-bind (load_client p) _ (Halts-load_client p) λ c.
          Halts-if (c.proto_version == 1) _ _ (send_plist_pkt-Halts host p 0 _)
            (send_pkt-Halts host p 0 _ _))
        w
