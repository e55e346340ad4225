-- ===== src/Usb/Teardown.antt =====
-- usb-mce.cpp: a device is disconnected: `usb_disconnect`, `usb_free_device`, and the devices of
-- `usb_shutdown`.
pub mod Outcome
pub mod Halting
use usbmuxd_plugable_usb_msv.Prelude.{
  ℕ, List, [], ◌∷◌, Bool, true, false, ◌||◌, none, if◌then◌else◌,
}
use usbmuxd_plugable_usb_msv.Collection
use usbmuxd_plugable_usb_msv.World.{update}
use usbmuxd_plugable_usb_msv.World.Host.{Host}
use usbmuxd_plugable_usb_msv.Device.Remove.{device_remove}
use usbmuxd_plugable_usb_msv.Usb.{
  UsbDevice, zero_port, no_endpoints, usb_waiting_for_device, port_closed, reader_told, writer_told,
  callback_unregistered, ThreadEnd, stopped, killed, kill_failed, wait_failed, Plugin, U, pure,
  ◌>>=◌, ◌>>◌, get_usb, load_usb, put_usb, call, ask, mux,
}
use usbmuxd_plugable_usb_msv.Usb.Devices.{is_disabled}

-- Does `usb_disconnect` go on after the wait for the reading thread?
abbrev pub goes_on : ThreadEnd → Bool
goes_on stopped = true
goes_on killed = true
goes_on kill_failed = false
goes_on wait_failed = false

-- A device whose port, socket and reading thread are closed.
unfoldable pub closed_device : UsbDevice → UsbDevice
closed_device d = record d { data_events_socket = none; rx_thread = false }

-- A monitored device that waits for the next one at its location.
unfoldable pub reset_device : UsbDevice → UsbDevice
reset_device d = record (closed_device d) {
  port = zero_port;
  serial = [];
  endpoints = no_endpoints;
  state = usb_waiting_for_device;
}

-- `usb_free_device`
unfoldable pub usb_free_device : ℕ → U (Unit {0})
usb_free_device dev = do
  load_usb dev
  u ← get_usb
  λ v w.
      pure tt
        (record v {
          usb_list = Collection.remove u.usb_list dev;
          usb_devices = update u.usb_devices dev none;
        })
        w

module _ (plugin : Plugin) where
  -- The reading thread is told to stop, and killed if it does not; is it gone?
  unfoldable pub stop_reader : ℕ → UsbDevice → U Bool
  stop_reader dev d =
      if d.rx_thread
      then (do e ← ask (reader_told dev) plugin.reader_ends; pure (goes_on e))
      else pure true

  -- The writing thread is told to stop. Its answer decides only what becomes of the queue and the
  -- pool of transfers, which are not part of this state.
  unfoldable pub stop_writer : ℕ → UsbDevice → U (Unit {0})
  stop_writer dev d =
      if d.write_thread_stop then (ask (writer_told dev) plugin.writer_ends >> pure tt) else pure tt

  -- `usb_disconnect`
  unfoldable pub usb_disconnect : ℕ → Bool → U (Unit {0})
  usb_disconnect dev manual_remove = do
    d ← load_usb dev
    gone ← stop_reader dev d
    if gone
        then (do
          stop_writer dev d
          call (port_closed dev)
          if manual_remove || is_disabled d.monitor
              then usb_free_device dev
              else put_usb dev (reset_device d))
        else pure tt

  module _ (host : Host) where
    -- The devices that `usb_shutdown` removes
    unfoldable pub disconnect_all : List ℕ → U (Unit {0})
    disconnect_all [] = pure tt
    disconnect_all (p ∷ ps) = do
      mux host (λ h. device_remove h p)
      usb_disconnect p true
      disconnect_all ps

    -- What `usb_shutdown` does to the devices and the callback
    unfoldable pub shutdown_devices : U (Unit {0})
    shutdown_devices = do
      u ← get_usb
      disconnect_all (Collection.items u.usb_list)
      v ← get_usb
      if v.cookie then call callback_unregistered else pure tt
      λ x w. pure tt (record x { cookie = false; usb_list = Collection.free x.usb_list }) w
