-- ===== src/World.antt =====
-- The objects of device.cpp and client.cpp on an explicit heap. An object is reached through its
-- address; a freed address holds nothing, so a use after free is a fault of the step that makes it.
pub mod Step
pub mod Host
use usbmuxd_plugable_usb_msv.Prelude.{
  ℕ, Bool, true, false, List, [], ◌∷◌, Option, none, some, ◌==◌, if◌then◌else◌,
}
use usbmuxd_plugable_usb_msv.Collection.{Collection}

-- `enum mux_dev_state`
pub data MuxDevState : Type 0 where
  muxdev_init muxdev_active muxdev_dead : MuxDevState

-- `enum mux_conn_state`
pub data MuxConnState : Type 0 where
  conn_connecting conn_connected conn_refused conn_dying conn_dead : MuxConnState

-- `enum client_state`
pub data ClientState : Type 0 where
  client_command client_listen client_connecting1 client_connecting2 : ClientState
  client_connected client_dead : ClientState

-- A poll mask, of which the program uses two bits.
pub record Events : Type 0 where
  pub pollin : Bool
  pub pollout : Bool

abbrev pub no_events : Events
no_events = record { pollin = false; pollout = false }

-- `struct mux_connection`. `flags` has the one bit `CONN_ACK_PENDING`; `ib_buf` holds the bytes
-- written so far, of which the first `ib_size` are live; `ob_buf` is scratch space.
pub record MuxConnection : Type 0 where
  pub dev : ℕ
  pub client : Option ℕ
  pub state : MuxConnState
  pub sport : ℕ
  pub dport : ℕ
  pub tx_seq : ℕ
  pub tx_ack : ℕ
  pub tx_acked : ℕ
  pub tx_win : ℕ
  pub rx_seq : ℕ
  pub rx_ack : ℕ
  pub rx_win : ℕ
  pub max_payload : ℕ
  pub sendable : ℕ
  pub ack_pending : Bool
  pub ib_buf : List ℕ
  pub ib_size : ℕ
  pub ib_capacity : ℕ
  pub ob_capacity : ℕ
  pub events : Events
  pub last_ack_time : ℕ

-- `struct mux_device`. `connections` is `none` while nothing has initialised it; an invalid socket is
-- `none`.
pub record MuxDevice : Type 0 where
  pub usbdev : ℕ
  pub id : ℕ
  pub state : MuxDevState
  pub visible : Bool
  pub connections : Option Collection
  pub next_sport : ℕ
  pub pktbuf : List ℕ
  pub pktlen : ℕ
  pub preflight_cb_data : Option ℕ
  pub version : ℕ
  pub rx_seq : ℕ
  pub tx_seq : ℕ
  pub rx_data_events_socket : Option ℕ
  pub is_preflight_worker_running : Bool

-- `struct mux_client`; a buffer that was freed and set to `NULL` is `none`.
pub record MuxClient : Type 0 where
  pub fd : ℕ
  pub ob_buf : Option (List ℕ)
  pub ob_size : ℕ
  pub ob_capacity : ℕ
  pub ib_buf : Option (List ℕ)
  pub ib_size : ℕ
  pub ib_capacity : ℕ
  pub events : Events
  pub devents : Events
  pub connect_tag : ℕ
  pub connect_device : ℕ
  pub state : ClientState
  pub proto_version : ℕ

-- `struct device_info`
pub record DeviceInfo : Type 0 where
  pub id : ℕ
  pub serial : List ℕ
  pub location : ℕ
  pub pid : ℕ

-- What the program asks of the world outside, in the order of the calls.
pub data Event : Type 0 where
  usb_sent : ℕ → List ℕ → Event
  sock_sent : ℕ → List ℕ → Event
  sock_received : ℕ → ℕ → Event
  sock_closed : ℕ → Event
  clock_read : Event
  preflight_started : DeviceInfo → Event
  preflight_removed : ℕ → Event
  device_ready : ℕ → Event
  usb_add_asked : ℕ → Event
  usb_remove_asked : ℕ → Event
  usb_monitor_asked : ℕ → Bool → Event
  record_read : List ℕ → Event
  record_saved : List ℕ → List ℕ → Event
  record_removed : List ℕ → Event
  buid_read : Event
  environment_read : Event

-- The heap, the two global lists, `next_device_id`, and the calls made so far, newest first.
pub record World : Type 0 where
  pub devices : ℕ → Option MuxDevice
  pub conns : ℕ → Option MuxConnection
  pub clients : ℕ → Option MuxClient
  pub device_list : Collection
  pub client_list : Collection
  pub next_device_id : ℕ
  pub next_address : ℕ
  pub trace : List Event

-- A function with one entry replaced.
abbrev pub update : {A : Type 0} → (ℕ → Option A) → ℕ → Option A → ℕ → Option A
update f p v q = if p == q then v else f q
