-- ===== src/Usb/Attach.antt =====
-- usb-mce.cpp: a device is added: `usb_add_pending_device`.
pub mod Occupied
use usbmuxd_plugable_usb_msv.Prelude.{
  ℕ, suc, List, [], ◌∷◌, Bool, true, false, ◌&&◌, ◌||◌, not, Option, none, some, ltb, ◌==◌,
  if◌then◌else◌, ℤ, pos, negsuc, is_neg,
}
use usbmuxd_plugable_usb_msv.Collection
use usbmuxd_plugable_usb_msv.World.{update}
use usbmuxd_plugable_usb_msv.World.Host.{Host}
use usbmuxd_plugable_usb_msv.Device.Remove.{
  device_remove, device_add_failed, device_is_initializing,
}
use usbmuxd_plugable_usb_msv.Device.Lifecycle.{device_add}
use usbmuxd_plugable_usb_msv.Client.Notify.{client_device_error_already_exits}
use usbmuxd_plugable_usb_msv.Usb.{
  MonitorState, monitor_once, monitor_disable, ComHandle, zero_port, no_endpoints, UsbDevice,
  usb_alive, usb_waiting_for_device, port_opened, event_created, Plugin, U, pure, ◌>>=◌, ◌>>◌,
  get_usb, load_usb, put_usb, ask, mux,
}
use usbmuxd_plugable_usb_msv.Usb.Devices.{is_valid_device, is_disabled, is_always, is_once}
use usbmuxd_plugable_usb_msv.Usb.Teardown.{usb_disconnect}
use usbmuxd_plugable_usb_msv.Usb.Threads.{usb_start_read_thread, usb_start_write_thread}
use usbmuxd_plugable_usb_msv.Usb.Configure.{usb_configure_device}

-- `PENDING_DEVICE_COMMAND_SOURCE`
pub data Source : Type 0 where
  source_manual source_monitor : Source

abbrev pub is_monitor_source : Source → Bool
is_monitor_source source_manual = false
is_monitor_source source_monitor = true

-- `VID_APPLE`, `PID_RANGE_LOW`, `PID_RANGE_MAX`
abbrev pub vid_apple : ℕ
vid_apple = 0x5ac

abbrev pub pid_range_low : ℕ
pid_range_low = 0x1290

abbrev pub pid_range_max : ℕ
pid_range_max = 0x12af

-- The test of the vendor and product ids that are not supported
unfoldable pub is_unsupported : ComHandle → Bool
is_unsupported port =
    not (port.vid == vid_apple) || (ltb port.pid pid_range_low || ltb pid_range_max port.pid)

-- What is at a location: a device with a valid port, or one whose port is not valid, or nothing.
pub data Slot : Type 0 where
  occupied reusable : ℕ → Slot
  vacant : Slot

abbrev pub slot_of : Option ℕ → Slot
slot_of none = vacant
slot_of (some p) = reusable p

-- The search of `usb_add_pending_device`, which ends at a valid device.
unfoldable pub find_slot : ℕ → Option ℕ → List ℕ → U Slot
find_slot location usb_dev [] = pure (slot_of usb_dev)
find_slot location usb_dev (p ∷ ps) = do
  d ← load_usb p
  if d.location == location
      then (if is_valid_device d then pure (occupied p) else find_slot location (some p) ps)
      else find_slot location usb_dev ps

-- `new usb_device`, with its id and location
unfoldable pub fresh_device : ℕ → ℕ → UsbDevice
fresh_device id location = record {
  id = id;
  location = location;
  port = zero_port;
  monitor = monitor_once;
  state = usb_alive;
  serial = [];
  endpoints = no_endpoints;
  rx_data_size = 0;
  rx_thread = false;
  thread_stop_event = false;
  data_events_socket = none;
  write_thread_stop = false;
  tx_thread = false;
  device_ready_event = none;
}

unfoldable pub new_usb_device : ℕ → U ℕ
new_usb_device location u w =
    pure u.next_usb_address
      (record u {
        usb_devices =
            update u.usb_devices u.next_usb_address
              (some (fresh_device u.next_usb_device_id location));
        next_usb_address = suc u.next_usb_address;
        next_usb_device_id = suc u.next_usb_device_id;
      })
      w

module _ (plugin : Plugin) where
  -- "Initialize the device's struct": a new device joins the list, if its event could be created; an
  -- existing one that was monitored once is no longer monitored. Did it work?
  unfoldable pub enlist : ℕ → Bool → MonitorState → U Bool
  enlist dev is_existing_device monitor = do
    d ← load_usb dev
    if is_existing_device
        then (put_usb dev (if is_once d.monitor then record d { monitor = monitor_disable } else d)
            >> pure true)
        else (do
          put_usb dev (record d { monitor = monitor })
          created ← ask event_created plugin.create_event
          if created
              then (λ u w. pure true (record u { usb_list = Collection.add u.usb_list dev }) w)
              else pure false)

  module _ (host : Host) where
    -- `usb_report_device_already_exists`
    unfoldable pub usb_report_device_already_exists : ℕ → U (Unit {0})
    usb_report_device_already_exists dev = do
      d ← load_usb dev
      if is_once d.monitor then pure tt else (do
        initializing ← mux host (λ h. device_is_initializing h dev)
        if initializing
            then pure tt
            else mux host (λ h.
              client_device_error_already_exits h
                (record { id = d.id; serial = d.serial; location = d.location; pid = d.port.pid })))

    -- `lblCleanup` of `usb_add_pending_device`
    unfoldable pub clean_up : ℕ → Bool → Bool → U ℤ
    clean_up dev is_existing_device was_device_added = do
      d ← load_usb dev
      let should_keep_device = is_existing_device && is_always d.monitor
      if was_device_added
          then mux host (λ h. device_remove h dev)
          else (if should_keep_device then pure tt else mux host (λ h. device_add_failed h dev))
      if should_keep_device
          then (usb_disconnect plugin dev false >> pure (pos 0))
          else (usb_disconnect plugin dev true >> pure (negsuc 0))

    -- The threads of a device that device.cpp knows
    unfoldable pub start_threads : ℕ → Bool → U ℤ
    start_threads dev is_existing_device = do
      reading ← usb_start_read_thread plugin dev
      if is_neg reading then clean_up dev is_existing_device true else (do
        d ← load_usb dev
        writing ← (if d.port.turbo then usb_start_write_thread plugin dev else pure (pos 0))
        if is_neg writing
            then clean_up dev is_existing_device true
            else (do e ← load_usb dev; put_usb dev (record e { state = usb_alive }); pure (pos 0)))

    -- `usb_add_pending_device` from the configuration of the device on
    unfoldable pub bring_up : ℕ → Bool → Option ℕ → U ℤ
    bring_up dev is_existing_device device_ready_event = do
      configured ← usb_configure_device plugin dev
      d ← load_usb dev
      if not configured
          then (if is_existing_device && is_always d.monitor
              then pure (pos 0)
              else clean_up dev is_existing_device false)
          else (do
            elim device_ready_event [
              | none ↦ pure tt
              | some event ↦ put_usb dev (record d { device_ready_event = some event })
            ]
            added ← mux host (λ h. device_add h dev)
            if is_neg added
                then clean_up dev is_existing_device false
                else start_threads dev is_existing_device)

    -- `usb_add_pending_device` behind an open port
    unfoldable pub attach_opened : ℕ → Bool → Source → MonitorState → Option ℕ → U ℤ
    attach_opened dev is_existing_device source monitor device_ready_event = do
      listed ← enlist dev is_existing_device monitor
      d ← load_usb dev
      if not listed
          then clean_up dev is_existing_device false
          else if is_unsupported d.port
          then (if is_monitor_source source || is_disabled monitor
              then clean_up dev is_existing_device false
              else pure (pos 0))
          else bring_up dev is_existing_device device_ready_event

    -- `usb_add_pending_device` with the device that it found or made
    unfoldable pub attach : ℕ → Bool → Source → ℕ → MonitorState → Option ℕ → U ℤ
    attach dev is_existing_device source location monitor device_ready_event = do
      opened ← ask (port_opened location) (λ t. plugin.open_by_name t location)
      d ← load_usb dev
      elim opened [
        | some port ↦
            put_usb dev (record d { port = port })
            >> attach_opened dev is_existing_device source monitor device_ready_event
        | none ↦
            if is_always monitor
            then (do
              put_usb dev (record d { state = usb_waiting_for_device })
              listed ← enlist dev is_existing_device monitor
              if listed then pure (pos 0) else clean_up dev is_existing_device false)
            else clean_up dev is_existing_device false
      ]

    -- `usb_add_pending_device`
    unfoldable pub usb_add_pending_device : Source → ℕ → MonitorState → Option ℕ → U ℤ
    usb_add_pending_device source location monitor device_ready_event = do
      u ← get_usb
      slot ← find_slot location none (Collection.items u.usb_list)
      elim slot [
        | occupied dev ↦ usb_report_device_already_exists dev >> pure (negsuc 0)
        | reusable dev ↦ attach dev true source location monitor device_ready_event
        | vacant ↦ do
          dev ← new_usb_device location
          attach dev false source location monitor device_ready_event
      ]
