-- ===== src/Device/Remove.antt =====
-- device.cpp: `device_remove`, `device_add_failed`, `device_is_initializing`, `device_shutdown`.
pub mod Shutdown
pub mod Halting
use usbmuxd_plugable_usb_msv.Prelude.{
  ℕ, List, [], ◌∷◌, Bool, false, ◌||◌, Option, none, some, ◌==◌, if◌then◌else◌,
}
use usbmuxd_plugable_usb_msv.Collection
use usbmuxd_plugable_usb_msv.World.{muxdev_dead, preflight_removed, sock_closed}
use usbmuxd_plugable_usb_msv.World.Host.{Host}
use usbmuxd_plugable_usb_msv.World.Step.{
  M, pure, ◌>>=◌, ◌>>◌, done, emit, get_world, load_device, put_device, free_device,
}
use usbmuxd_plugable_usb_msv.Device.Teardown.{connection_teardown}
use usbmuxd_plugable_usb_msv.Device.Input.{is_active}
use usbmuxd_plugable_usb_msv.Device.Mux.{find_usbdev, info_of, is_init}
use usbmuxd_plugable_usb_msv.Device.Lifecycle.{each_conn}
use usbmuxd_plugable_usb_msv.Client.Notify.{client_device_remove, client_device_removed_during_add}

module _ (host : Host) where
  -- What `device_remove` tells the clients.
  unfoldable pub announce_removal : ℕ → M (Unit {0})
  announce_removal dev = do
    d ← load_device dev
    if d.visible
        then client_device_remove host d.id
        else client_device_removed_during_add host (info_of host d)

  -- The part of `device_remove` for an active device.
  unfoldable pub retire : ℕ → M (Unit {0})
  retire dev = do
    d ← load_device dev
    put_device dev (record d { state = muxdev_dead })
    each_conn dev (connection_teardown host)
    announce_removal dev
    d₁ ← load_device dev
    put_device dev (record d₁ { connections = some (Collection.free (record { list = [] })) })

  -- The end of `device_remove`.
  unfoldable pub discard_device : ℕ → M (Unit {0})
  discard_device dev = do
    d ← load_device dev
    elim d.preflight_cb_data [ none ↦ pure tt | some p ↦ emit (preflight_removed p) ]
    (λ w. done tt (record w { device_list = Collection.remove w.device_list dev }))
    elim d.rx_data_events_socket [ none ↦ pure tt | some s ↦ emit (sock_closed s) ]
    free_device dev

  -- `device_remove`
  unfoldable pub device_remove : ℕ → M (Unit {0})
  device_remove usbdev = do
    w ← get_world
    found ← find_usbdev (Collection.items w.device_list) usbdev
    elim found [
      | none ↦ pure tt
      | some dev ↦ do
        d ← load_device dev
        if is_active d.state then retire dev else pure tt
        discard_device dev
    ]

  -- `device_add_failed`
  unfoldable pub device_add_failed : ℕ → M (Unit {0})
  device_add_failed usbdev = client_device_removed_during_add host (record {
    id = 0;
    serial = host.usb_serial usbdev;
    location = host.usb_location usbdev;
    pid = host.usb_pid usbdev;
  })

  -- The first device that is at the location of a USB device
  unfoldable pub find_at_location : ℕ → List ℕ → M (Option ℕ)
  find_at_location usbdev [] = pure none
  find_at_location usbdev (p ∷ ps) = do
    d ← load_device p
    if host.usb_location usbdev == host.usb_location d.usbdev
        then pure (some p)
        else find_at_location usbdev ps

  -- `device_is_initializing`
  unfoldable pub device_is_initializing : ℕ → M Bool
  device_is_initializing usbdev = do
    w ← get_world
    found ← find_at_location usbdev (Collection.items w.device_list)
    elim found [
      | none ↦ pure false
      | some dev ↦ do d ← load_device dev; pure (is_init d.state || d.is_preflight_worker_running)
    ]

  -- The devices that `device_shutdown` frees
  unfoldable pub shut_devices : List ℕ → M (Unit {0})
  shut_devices [] = pure tt
  shut_devices (p ∷ ps) = do
    each_conn p (connection_teardown host)
    (λ w. done tt (record w { device_list = Collection.remove w.device_list p }))
    free_device p
    shut_devices ps

  -- `device_shutdown`
  unfoldable pub device_shutdown : M (Unit {0})
  device_shutdown = do
    w ← get_world
    shut_devices (Collection.items w.device_list)
    λ v. done tt (record v { device_list = Collection.free v.device_list })
