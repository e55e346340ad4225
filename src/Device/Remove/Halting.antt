-- ===== src/Device/Remove/Halting.antt =====
-- device.cpp: the removal of devices ends.
use usbmuxd_plugable_usb_msv.Prelude.{
  ℕ, zero, suc, ◌+◌, List, [], ◌∷◌, not, Option, none, some, if◌then◌else◌, length, get_or, ◌==◌,
}
use usbmuxd_plugable_usb_msv.Collection
use usbmuxd_plugable_usb_msv.World.{update, muxdev_dead, preflight_removed, sock_closed}
use usbmuxd_plugable_usb_msv.World.Host.{Host}
use usbmuxd_plugable_usb_msv.World.Step.{
  M, pure, done, require, when, emit, load_device, put_device, free_device,
}
use usbmuxd_plugable_usb_msv.World.Step.Ends.{
  Halts, Halts-bind, Halts-if, Halts-pure, Halts-load_device, Halts-require, Halts-when,
  Halts-option,
}
use usbmuxd_plugable_usb_msv.Client.Notify.Halting.{
  client_device_remove-Halts, client_device_removed_during_add-Halts,
}
use usbmuxd_plugable_usb_msv.Device.Teardown.Halting.{connection_teardown-Halts}
use usbmuxd_plugable_usb_msv.Device.Input.{is_active}
use usbmuxd_plugable_usb_msv.Device.Mux.{find_usbdev, is_init, info_of}
use usbmuxd_plugable_usb_msv.Device.Teardown.{connection_teardown}
use usbmuxd_plugable_usb_msv.Client.Notify.{client_device_remove, client_device_removed_during_add}
use usbmuxd_plugable_usb_msv.Device.Lifecycle.{
  each_slot, each_conn, kill_devices, device_kill_connections,
}
use usbmuxd_plugable_usb_msv.Device.Remove.{
  announce_removal, retire, discard_device, device_remove, shut_devices, device_shutdown,
}

each_slot-Halts :
    (left i dev : ℕ) (body : ℕ → M (Unit {0}))
    → ((p : ℕ) → Halts (body p))
    → Halts (each_slot left i dev body)
unfolding each_slot
each_slot-Halts zero i dev body h = Halts-pure tt
each_slot-Halts (suc left) i dev body h =
    Halts-bind (load_device dev) _ (Halts-load_device dev) λ d.
      Halts-bind (require d.connections) _ (Halts-require d.connections) λ conns.
        Halts-bind _ _ (Halts-option (get_or conns.list i none) (pure tt) body (Halts-pure tt) h)
          λ _. each_slot-Halts left (i + 1) dev body h

each_conn-Halts :
    (dev : ℕ) (body : ℕ → M (Unit {0})) → ((p : ℕ) → Halts (body p)) → Halts (each_conn dev body)
unfolding each_conn
each_conn-Halts dev body h = Halts-bind (load_device dev) _ (Halts-load_device dev) λ d.
    Halts-bind (require d.connections) _ (Halts-require d.connections)
      λ conns. each_slot-Halts (length conns.list) 0 dev body h

find_usbdev-Halts : (ps : List ℕ) (usbdev : ℕ) → Halts (find_usbdev ps usbdev)
unfolding find_usbdev
find_usbdev-Halts [] usbdev = Halts-pure {A = Option ℕ} none
find_usbdev-Halts (p ∷ ps) usbdev = Halts-bind (load_device p) _ (Halts-load_device p) λ d.
    Halts-if (d.usbdev == usbdev) (pure (some p)) (find_usbdev ps usbdev) (Halts-pure (some p))
      (find_usbdev-Halts ps usbdev)

free_device-Halts : (p : ℕ) → Halts (free_device p)
free_device-Halts p =
    Halts-bind (load_device p) (λ _ w. done tt (record w { devices = update w.devices p none }))
      (Halts-load_device p) λ _ w. tt

module _ (host : Host) where
  kill_devices-Halts : (ps : List ℕ) → Halts (kill_devices host ps)
  unfolding kill_devices
  kill_devices-Halts [] = Halts-pure tt
  kill_devices-Halts (p ∷ ps) = Halts-bind (load_device p) _ (Halts-load_device p) λ d.
      Halts-bind (when (not (is_init d.state)) (each_conn p (connection_teardown host))) _
        (Halts-when _ _ (each_conn-Halts p _ (connection_teardown-Halts host)))
        λ _. kill_devices-Halts ps

  pub device_kill_connections-Halts : Halts (device_kill_connections host)
  unfolding device_kill_connections
  device_kill_connections-Halts w = kill_devices-Halts (Collection.items w.device_list) w

  announce_removal-Halts : (p : ℕ) → Halts (announce_removal host p)
  unfolding announce_removal
  announce_removal-Halts p = Halts-bind (load_device p) _ (Halts-load_device p) λ c.
      Halts-if c.visible (client_device_remove host c.id)
        (client_device_removed_during_add host (info_of host c))
        (client_device_remove-Halts host c.id)
        (client_device_removed_during_add-Halts host (info_of host c))

  retire-Halts : (p : ℕ) → Halts (retire host p)
  unfolding retire
  retire-Halts p = Halts-bind (load_device p) _ (Halts-load_device p) λ d.
      Halts-bind (put_device p (record d { state = muxdev_dead })) _ (λ w. tt)
        λ _.
          Halts-bind (each_conn p (connection_teardown host)) _
            (each_conn-Halts p _ (connection_teardown-Halts host))
            λ _. Halts-bind (announce_removal host p) _ (announce_removal-Halts p) λ _.
              Halts-bind (load_device p)
                (λ c.
                  put_device p
                    (record c { connections = some (Collection.free (record { list = [] })) }))
                (Halts-load_device p) λ c w. tt

  discard_device-Halts : (p : ℕ) → Halts (discard_device host p)
  unfolding discard_device
  discard_device-Halts p = Halts-bind (load_device p) _ (Halts-load_device p) λ d.
      Halts-bind _ _
        (Halts-option d.preflight_cb_data (pure tt) (λ q. emit (preflight_removed q))
          (Halts-pure tt) (λ q w. tt))
        λ _.
          Halts-bind (λ w. done tt (record w { device_list = Collection.remove w.device_list p })) _
            (λ w. tt)
            λ _.
              Halts-bind _ _
                (Halts-option d.rx_data_events_socket (pure tt) (λ q. emit (sock_closed q))
                  (Halts-pure tt) (λ q w. tt))
                λ _. free_device-Halts p

  pub device_remove-Halts : (usbdev : ℕ) → Halts (device_remove host usbdev)
  unfolding device_remove
  device_remove-Halts usbdev w =
      Halts-bind (find_usbdev (Collection.items w.device_list) usbdev) _
        (find_usbdev-Halts (Collection.items w.device_list) usbdev)
        (λ found. Halts-option found _ _ (Halts-pure tt) λ dev.
          Halts-bind (load_device dev) _ (Halts-load_device dev) λ d.
            Halts-bind (if is_active d.state then retire host dev else pure tt) _
              (Halts-if (is_active d.state) (retire host dev) (pure tt) (retire-Halts dev)
                (Halts-pure tt))
              λ _. discard_device-Halts dev)
        w

  shut_devices-Halts : (ps : List ℕ) → Halts (shut_devices host ps)
  unfolding shut_devices
  shut_devices-Halts [] = Halts-pure tt
  shut_devices-Halts (p ∷ ps) =
      Halts-bind (each_conn p (connection_teardown host)) _
        (each_conn-Halts p _ (connection_teardown-Halts host))
        λ _.
          Halts-bind (λ w. done tt (record w { device_list = Collection.remove w.device_list p })) _
            (λ w. tt)
            λ _. Halts-bind (free_device p) _ (free_device-Halts p) λ _. shut_devices-Halts ps

  pub device_shutdown-Halts : Halts (device_shutdown host)
  unfolding device_shutdown
  device_shutdown-Halts w =
      Halts-bind (shut_devices host (Collection.items w.device_list))
        (λ _ v. done tt (record v { device_list = Collection.free v.device_list }))
        (shut_devices-Halts (Collection.items w.device_list)) (λ _ v. tt) w
