-- ===== src/Usb.antt =====
-- usb-mce.cpp: the state of the USB port driver, the plug-in it stands on, and steps that change the
-- driver's devices and the world of the multiplexer.
pub mod Descriptors
pub mod Devices
pub mod Teardown
pub mod Threads
pub mod Configure
pub mod Attach
pub mod Commands
pub mod Transfer
pub mod Reading
use usbmuxd_plugable_usb_msv.Prelude.{
  ℕ, suc, Bool, true, false, List, [], ◌∷◌, Option, none, some, ◌==◌, if◌then◌else◌,
}
use usbmuxd_plugable_usb_msv.Collection.{Collection}
use usbmuxd_plugable_usb_msv.World.{World, update}
use usbmuxd_plugable_usb_msv.World.Host.{Host}
use usbmuxd_plugable_usb_msv.World.Step.{M, done, fault}
use usbmuxd_plugable_usb_msv.World.Step
use usbmuxd_plugable_usb_msv.Usb.Descriptors.{Endpoints}

-- `enum device_monitor_state`
pub data MonitorState : Type 0 where
  monitor_once monitor_always monitor_disable : MonitorState

-- `enum usb_device_state`
pub data UsbDeviceState : Type 0 where
  usb_alive usb_dead usb_waiting_for_device : UsbDeviceState

-- `COMHANDLE`, as far as the driver reads it
pub record ComHandle : Type 0 where
  pub port_id : ℕ
  pub vid : ℕ
  pub pid : ℕ
  pub turbo : Bool

abbrev pub zero_port : ComHandle
zero_port = record { port_id = 0; vid = 0; pid = 0; turbo = false }

-- `struct usb_device_tx_q_element`: the buffer if there is one, and the address of the OVERLAPPED
-- structure.
pub record TxElement : Type 0 where
  pub buffer : Option (List ℕ)
  pub overlapped : ℕ

-- `struct usb_device` with its parts. Of a handle the model keeps whether it is there; an invalid
-- socket is `none`.
pub record UsbDevice : Type 0 where
  pub id : ℕ
  pub location : ℕ
  pub port : ComHandle
  pub monitor : MonitorState
  pub state : UsbDeviceState
  pub serial : List ℕ
  pub endpoints : Endpoints
  pub rx_data_size : ℕ
  pub rx_thread : Bool
  pub thread_stop_event : Bool
  pub data_events_socket : Option ℕ
  pub write_thread_stop : Bool
  pub tx_thread : Bool
  pub device_ready_event : Option ℕ

abbrev pub no_endpoints : Endpoints
no_endpoints = record { ep_in = 0; ep_out = 0; tx_max_packet_size = 0 }

-- The calls that leave the driver, oldest last.
pub data UsbCall : Type 0 where
  port_opened : ℕ → UsbCall
  port_asked : ℕ → UsbCall
  port_closed : ℕ → UsbCall
  event_created : UsbCall
  event_set : ℕ → UsbCall
  reader_told : ℕ → UsbCall
  writer_told : ℕ → UsbCall
  socket_asked : UsbCall
  thread_asked : ℕ → UsbCall
  callback_registered callback_unregistered : UsbCall
  transferred : ℕ → List ℕ → UsbCall
  result_asked : ℕ → UsbCall

-- The devices of the driver at their addresses, `g_device_list`, `g_next_usb_device_id`, and
-- whether `g_port_notification_callback_cookie` is there.
pub record Usb : Type 0 where
  pub usb_devices : ℕ → Option UsbDevice
  pub usb_list : Collection
  pub next_usb_device_id : ℕ
  pub next_usb_address : ℕ
  pub cookie : Bool
  pub calls : List UsbCall

-- How a wait for the reading thread ends: it stopped, it had to be killed, it could not be killed,
-- or the wait failed.
pub data ThreadEnd : Type 0 where
  stopped killed kill_failed wait_failed : ThreadEnd

-- `bNumConfigurations` and `iSerialNumber` of a device descriptor
pub record DeviceDescriptor : Type 0 where
  pub num_configurations : ℕ
  pub serial_index : ℕ

-- The answer to a transfer: it is done, it goes on, or it failed.
pub data TransferEnd : Type 0 where
  completed io_pending failed : TransferEnd

-- The plug-in and the part of Windows that the driver calls. An answer may depend on the calls
-- before.
pub record Plugin : Type 0 where
  -- `com_plugin_open_by_name`, at a location
  pub open_by_name : List UsbCall → ℕ → Option ComHandle
  -- `com_pluging_get_device_descriptor`, `com_plugin_get_ascii_string_descriptor`, and the two calls
  -- of `com_plugin_get_configuration_descriptor`, for the size and for the bytes
  pub device_descriptor : List UsbCall → ComHandle → Option DeviceDescriptor
  pub string_descriptor : List UsbCall → ComHandle → ℕ → Option (List ℕ)
  pub configuration_descriptor_size : List UsbCall → ComHandle → ℕ → ℕ
  pub configuration_descriptor : List UsbCall → ComHandle → ℕ → Option (List ℕ)
  pub select_configuration : List UsbCall → ComHandle → ℕ → Bool
  -- `com_plugin_transfer` to a device, `com_plugin_get_transfer_result`
  pub transfer : List UsbCall → ℕ → List ℕ → TransferEnd
  pub transfer_result : List UsbCall → ℕ → Bool
  -- `com_plugin_register_com_notification`
  pub register_notification : List UsbCall → Bool
  -- `CreateEvent`, `ConnectSocket`, `setsockopt`, `send` of the id, `CREATE_THREAD`
  pub create_event : List UsbCall → Bool
  pub connect_socket : List UsbCall → Option ℕ
  pub set_no_delay : List UsbCall → ℕ → Bool
  pub send_id : List UsbCall → ℕ → ℕ → Bool
  pub create_thread : List UsbCall → Bool
  -- `WaitForSingleObject` on the reading thread, with `TerminateThread`, and on the writing thread
  pub reader_ends : List UsbCall → ThreadEnd
  pub writer_ends : List UsbCall → Bool

-- A function of usb-mce.cpp changes the driver and the world of the multiplexer.
abbrev pub U : Type 0 → Type 0
U A = Usb → M (A × Usb)

abbrev pub pure : {A : Type 0} → A → U A
pure a u w = done (a, u) w

infixl 5 ◌>>=◌ ◌>>◌
abbrev pub ◌>>=◌ : {A B : Type 0} → U A → (A → U B) → U B
◌>>=◌ m f u = Step.◌>>=◌ (m u) (λ r. f r.0 r.1)

abbrev pub ◌>>◌ : {A B : Type 0} → U A → U B → U B
m >> k = m >>= λ _. k

abbrev pub get_usb : U Usb
get_usb u w = done (u, u) w

abbrev pub set_usb : Usb → U (Unit {0})
set_usb v u w = done (tt, v) w

abbrev pub crash : {A : Type 0} → U A
crash u w = fault

-- A pointer that must be good.
abbrev pub require : {A : Type 0} → Option A → U A
require none = crash
require (some a) = pure a

abbrev pub load_usb : ℕ → U UsbDevice
load_usb p u = require (u.usb_devices p) u

abbrev pub put_usb : ℕ → UsbDevice → U (Unit {0})
put_usb p d u w = done (tt, record u { usb_devices = update u.usb_devices p (some d) }) w

abbrev pub call : UsbCall → U (Unit {0})
call c u w = done (tt, record u { calls = c ∷ u.calls }) w

-- The answer of the plug-in to a call.
abbrev pub ask : {A : Type 0} → UsbCall → (List UsbCall → A) → U A
ask c answer u w = done (answer u.calls, record u { calls = c ∷ u.calls }) w

-- What device.cpp and client.cpp see of a device of the driver; they ask for devices that are there.
abbrev pub serial_at : Option UsbDevice → List ℕ
serial_at none = []
serial_at (some d) = d.serial

abbrev pub location_at : Option UsbDevice → ℕ
location_at none = 0
location_at (some d) = d.location

abbrev pub pid_at : Option UsbDevice → ℕ
pid_at none = 0
pid_at (some d) = d.port.pid

abbrev pub as_seen : Host → Usb → Host
as_seen host u = record host {
  usb_serial = λ p. serial_at (u.usb_devices p);
  usb_location = λ p. location_at (u.usb_devices p);
  usb_pid = λ p. pid_at (u.usb_devices p);
}

-- A function of device.cpp or client.cpp, called by the driver.
abbrev pub mux : {A : Type 0} → Host → (Host → M A) → U A
mux host f u = Step.◌>>=◌ (f (as_seen host u)) (λ a. Step.pure (a, u))
