-- ===== src/Usb/Devices.antt =====
-- usb-mce.cpp: `usb_init`, and what is asked of a device or of the list of devices.
use usbmuxd_plugable_usb_msv.Prelude.{
  ℕ, List, [], ◌∷◌, Bool, true, false, ◌&&◌, not, Option, none, some, ltb, ◌==◌, if◌then◌else◌, ℤ,
  pos, negsuc,
}
use usbmuxd_plugable_usb_msv.Collection
use usbmuxd_plugable_usb_msv.Usb.{
  MonitorState, monitor_once, monitor_always, monitor_disable, UsbDevice, event_set, UsbDeviceState,
  usb_waiting_for_device, Usb, U, pure, ◌>>=◌, get_usb, load_usb, call,
}

-- `COM_MCEUSB`
abbrev pub com_mceusb : ℕ
com_mceusb = 7

-- `IS_VALID_DEVICE` of a device
unfoldable pub is_valid_device : UsbDevice → Bool
is_valid_device d = d.port.port_id == com_mceusb

abbrev pub is_disabled : MonitorState → Bool
is_disabled monitor_disable = true
is_disabled _ = false

abbrev pub is_always : MonitorState → Bool
is_always monitor_always = true
is_always _ = false

abbrev pub is_once : MonitorState → Bool
is_once monitor_once = true
is_once _ = false

abbrev pub is_waiting : UsbDeviceState → Bool
is_waiting usb_waiting_for_device = true
is_waiting _ = false

-- `usb_init`, by whether the plug-in could be loaded and initialised.
unfoldable pub usb_init : Bool → Usb → ℤ × Usb
usb_init is_loaded u =
    if is_loaded
    then (pos 0, record u { cookie = false; next_usb_device_id = 1; usb_list = Collection.init })
    else (negsuc 0, u)

-- The loop of `usb_get_device_by_id`
unfoldable pub find_by_id : ℕ → List ℕ → U (Option ℕ)
find_by_id id [] = pure none
find_by_id id (p ∷ ps) = do
  d ← load_usb p
  if is_valid_device d && d.id == id then pure (some p) else find_by_id id ps

-- `usb_get_device_by_id`
unfoldable pub usb_get_device_by_id : ℕ → U (Option ℕ)
usb_get_device_by_id id = do u ← get_usb; find_by_id id (Collection.items u.usb_list)

-- `usb_get_serial` of a device
unfoldable pub usb_get_serial : ℕ → U (List ℕ)
usb_get_serial dev = do d ← load_usb dev; pure d.serial

-- `usb_get_location` of a device
unfoldable pub usb_get_location : ℕ → U ℕ
usb_get_location dev = do d ← load_usb dev; pure d.location

-- `usb_get_pid` of a device
unfoldable pub usb_get_pid : ℕ → U ℕ
usb_get_pid dev = do d ← load_usb dev; pure d.port.pid

-- `usb_is_device_monitored`
unfoldable pub usb_is_device_monitored : ℕ → U Bool
usb_is_device_monitored dev = do
  d ← load_usb dev
  pure (is_valid_device d && not (is_disabled d.monitor))

-- `usb_has_devices`
unfoldable pub usb_has_devices : U Bool
usb_has_devices = do u ← get_usb; pure (ltb 0 (Collection.count u.usb_list))

-- `usb_set_device_ready`
unfoldable pub usb_set_device_ready : ℕ → U (Unit {0})
usb_set_device_ready dev = do
  d ← load_usb dev
  if is_valid_device d
      then elim d.device_ready_event [ none ↦ pure tt | some event ↦ call (event_set event) ]
      else pure tt

-- The first device of the list at a location, which `usb_remove_pending_device` looks for.
unfoldable pub first_at : ℕ → List ℕ → U (Option ℕ)
first_at location [] = pure none
first_at location (p ∷ ps) = do
  d ← load_usb p
  if d.location == location then pure (some p) else first_at location ps

-- The last device of the list at a location, after `usb_dev`, which
-- `usb_handle_device_monitor_command` looks for.
unfoldable pub last_at : ℕ → Option ℕ → List ℕ → U (Option ℕ)
last_at location usb_dev [] = pure usb_dev
last_at location usb_dev (p ∷ ps) = do
  d ← load_usb p
  last_at location (if d.location == location then some p else usb_dev) ps

-- The test of `usb_update_monitored_devices` for a device to monitor
unfoldable pub have_monitored : List ℕ → U Bool
have_monitored [] = pure false
have_monitored (p ∷ ps) = do
  d ← load_usb p
  if not (is_disabled d.monitor) then pure true else have_monitored ps
