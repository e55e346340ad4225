-- ===== src/Client/Socket/Halting.antt =====
-- client.cpp: `client_shutdown` ends.
use usbmuxd_plugable_usb_msv.Prelude.{ℕ, zero, suc, ◌+◌, ◌≡◌, refl, [], none, length, get_or}
use usbmuxd_plugable_usb_msv.Collection
use usbmuxd_plugable_usb_msv.World.{World}
use usbmuxd_plugable_usb_msv.World.Host.{Host}
use usbmuxd_plugable_usb_msv.World.Step.{M, pure, done}
use usbmuxd_plugable_usb_msv.World.Step.Ends.{
  Ends, Ends-bind, Halts, Halts-bind, Halts-pure, Halts-option, weaken,
}
use usbmuxd_plugable_usb_msv.Device.Teardown.{client_close}
use usbmuxd_plugable_usb_msv.Device.Teardown.Close.{client_close-Ends}
use usbmuxd_plugable_usb_msv.Client.Socket.{each_client, client_shutdown}

module _ (host : Host) where
  each_client-Halts :
      (left i : ℕ) (body : ℕ → M (Unit {0}))
      → ((p : ℕ) → Halts (body p))
      → Halts (each_client host left i body)
  unfolding each_client
  each_client-Halts zero i body h w = tt
  each_client-Halts (suc left) i body h w =
      Halts-bind _ _
        (Halts-option (get_or w.client_list.list i none) (pure tt) body (Halts-pure tt) h)
        (λ _. each_client-Halts left (i + 1) body h) w

  pub client_shutdown-Ends :
      (w : World) → Ends (λ _ v. v.client_list.list ≡ []) (client_shutdown host w)
  unfolding client_shutdown Collection.free
  client_shutdown-Ends w =
      Ends-bind (λ _ _. Unit {0}) (λ _ v. v.client_list.list ≡ [])
        (each_client host (length w.client_list.list) 0 (client_close host))
        (λ _ v. done tt (record v { client_list = Collection.free v.client_list })) w
        (each_client-Halts (length w.client_list.list) 0 (client_close host)
          (λ p v.
            weaken (λ _ x. x.clients p ≡ none) (client_close host p v) (client_close-Ends host p v))
          w)
        λ _ v _. refl
