-- ===== src/Usb/Threads.antt =====
-- usb-mce.cpp: the threads of a device are started.
use usbmuxd_plugable_usb_msv.Prelude.{
  ℕ, Bool, true, false, none, some, if◌then◌else◌, ℤ, pos, negsuc,
}
use usbmuxd_plugable_usb_msv.Usb.{
  UsbDevice, event_created, socket_asked, thread_asked, Plugin, U, pure, ◌>>=◌, ◌>>◌, load_usb,
  put_usb, ask, get_usb,
}

-- `lblCleanup` of `usb_start_read_thread`: socket and stop event are closed.
unfoldable pub without_reader : UsbDevice → UsbDevice
without_reader d = record d { data_events_socket = none; thread_stop_event = false }

module _ (plugin : Plugin) where
  -- Is there a stop event after `usb_start_read_thread` reset or created it?
  unfoldable pub ready_stop_event : UsbDevice → U Bool
  ready_stop_event d =
      if d.thread_stop_event then pure true else ask event_created plugin.create_event

  -- The part of `usb_start_read_thread` behind a connected socket, up to the thread: did it start?
  unfoldable pub start_reader : ℕ → UsbDevice → ℕ → U Bool
  start_reader dev d socket = do
    u ← get_usb
    if plugin.set_no_delay u.calls socket
        then (if plugin.send_id u.calls socket d.id
            then (do
              ready ← ready_stop_event d
              if ready then ask (thread_asked dev) plugin.create_thread else pure false)
            else pure false)
        else pure false

  -- `usb_start_read_thread`
  unfoldable pub usb_start_read_thread : ℕ → U ℤ
  usb_start_read_thread dev = do
    d ← load_usb dev
    connected ← ask socket_asked plugin.connect_socket
    elim connected [
      | none ↦ put_usb dev (record d { data_events_socket = none }) >> pure (negsuc 0)
      | some socket ↦ do
        started ← start_reader dev d socket
        if started
            then (do
              put_usb dev (record d {
                data_events_socket = some socket;
                thread_stop_event = true;
                rx_thread = true;
              })
              pure (pos 0))
            else (put_usb dev (without_reader d) >> pure (negsuc 0))
    ]

  -- `usb_start_write_thread`
  unfoldable pub usb_start_write_thread : ℕ → U ℤ
  usb_start_write_thread dev = do
    d ← load_usb dev
    event ← ask event_created plugin.create_event
    started ← ask (thread_asked dev) plugin.create_thread
    put_usb dev (record d { write_thread_stop = event; tx_thread = started })
    pure (if started then pos 0 else negsuc 0)
