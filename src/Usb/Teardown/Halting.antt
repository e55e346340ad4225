-- ===== src/Usb/Teardown/Halting.antt =====
-- usb-mce.cpp: `usb_shutdown` ends.
use usbmuxd_plugable_usb_msv.Prelude.{
  ℕ, ◌≡◌, inl, inr, List, [], ◌∷◌, Bool, true, false, arith, Option-cases, subst, sym,
}
use usbmuxd_plugable_usb_msv.Collection
use usbmuxd_plugable_usb_msv.World.{World}
use usbmuxd_plugable_usb_msv.World.Host.{Host}
use usbmuxd_plugable_usb_msv.World.Step.Ends.{Ends, Ends-bind, Halts, Halts-bind}
use usbmuxd_plugable_usb_msv.Device.Remove.{device_remove}
use usbmuxd_plugable_usb_msv.Device.Remove.Halting.{device_remove-Halts}
use usbmuxd_plugable_usb_msv.Usb.{Usb, Plugin, mux, as_seen}
use usbmuxd_plugable_usb_msv.Usb.Teardown.{usb_disconnect, disconnect_all, shutdown_devices}
use usbmuxd_plugable_usb_msv.Usb.Teardown.Outcome.{usb_disconnect_lem}
use usbmuxd_plugable_usb_msv.Usb.Commands.{Driver, usb_shutdown}

module _ (plugin : Plugin) where
  usb_disconnect-Halts :
      (p : ℕ) (manual : Bool) (u : Usb) → Halts (usb_disconnect plugin p manual u)
  unfolding usb_disconnect
  usb_disconnect-Halts p manual u w = elim (Option-cases (u.usb_devices p)) [
    | inl e ↦ ground (arith, e)
    | inr (d, e) ↦
        let (v, ends, _) = usb_disconnect_lem plugin p manual d u w e in
        subst (Ends (λ _ _. Unit {0})) (sym ends) tt
  ]

  module _ (host : Host) where
    disconnect_all-Halts : (ps : List ℕ) (u : Usb) → Halts (disconnect_all plugin host ps u)
    unfolding disconnect_all
    disconnect_all-Halts [] u = λ w. tt
    disconnect_all-Halts (p ∷ ps) u =
        Halts-bind (mux host (λ h. device_remove h p) u) _
          (Halts-bind (device_remove (as_seen host u) p) _ (device_remove-Halts (as_seen host u) p)
            (λ _ w. tt))
          λ r.
            Halts-bind (usb_disconnect plugin p true r.1) _ (usb_disconnect-Halts p true r.1)
              λ q. disconnect_all-Halts ps q.1

    -- No device, no command and no callback is left.
    abbrev pub IsShut : Driver → Type 0
    IsShut v = (v.pending ≡ []) × (v.usb.usb_list.list ≡ []) × (v.usb.cookie ≡ false)

    -- The devices and the callback are gone.
    abbrev AreShut : Unit {0} × Usb → World → Type 0
    AreShut r _ = (r.1.usb_list.list ≡ []) × (r.1.cookie ≡ false)

    shutdown_devices-AreShut :
        (u : Usb) (w : World) → Ends AreShut (shutdown_devices plugin host u w)
    unfolding shutdown_devices Collection.free
    shutdown_devices-AreShut u w =
        Ends-bind (λ _ _. Unit {0}) AreShut
          (disconnect_all plugin host (Collection.items u.usb_list) u) _ w
          (disconnect_all-Halts (Collection.items u.usb_list) u w) λ r t _. ground arith

    pub usb_shutdown-IsShut :
        (v : Driver) (w : World) → Ends (λ x _. IsShut x) (usb_shutdown plugin host v w)
    unfolding usb_shutdown
    usb_shutdown-IsShut v w =
        Ends-bind AreShut (λ x _. IsShut x) (shutdown_devices plugin host v.usb) _ w
          (shutdown_devices-AreShut v.usb w) λ r t shut. ground (arith, shut)
