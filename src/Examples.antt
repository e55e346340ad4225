-- ===== src/Examples.antt =====
-- A host, and small worlds of devices, connections and clients, at which the theorems are applied.
mod DeviceExamples
mod ClientExamples
mod LoopExamples
mod RelayExamples
mod PaperHost
mod ConfigExamples
mod UsbExamples
mod PreflightExamples
mod MainExamples
mod HexExamples
use usbmuxd_plugable_usb_msv.Prelude.{
  ℕ, ◌≤◌, ◌≡◌, List, [], ◌∷◌, Option, none, some, true, false, arith, length, ℤ, pos,
}
use Prim.Native.String.{String}
use usbmuxd_plugable_usb_msv.Collection
use usbmuxd_plugable_usb_msv.World.{
  World, Event, MuxDevice, muxdev_active, MuxConnection, conn_connected, MuxClient,
  client_connecting1, no_events,
}
use usbmuxd_plugable_usb_msv.World.Host.{Host, plist_other}
use usbmuxd_plugable_usb_msv.Device.Window.{new_connection}

pub accepts_all : (buf : List ℕ) (n : ℕ) → pos (length buf) ≡ pos n → n ≤ length buf
accepts_all buf n e = ground arith

pub reads_nothing : (len : ℕ) (bs : List ℕ) → some [] ≡ some bs → length bs ≤ len
reads_nothing len bs e = ground arith

-- Every transfer succeeds at once, every socket takes all it is offered and has nothing to read.
abbrev pub calm_host : Host
calm_host = record {
  usb_send = λ t dev packet. pos 0;
  send = λ t fd buf. pos (length buf);
  send_at_most = λ t fd buf n e. accepts_all buf n e;
  recv = λ t fd len. some [];
  recv_at_most = λ t fd len bs e. reads_nothing len bs e;
  realloc = λ w size. true;
  mstime = λ t. 1000;
  usb_serial = λ dev. 65 ∷ [];
  usb_location = λ dev. dev;
  usb_pid = λ dev. 0x1290;
  usb_add_device = λ t location. pos 0;
  usb_remove_device = λ t location. pos 0;
  usb_set_monitoring = λ t location on. pos 0;
  config_get_system_buid = λ t. 66 ∷ [];
  config_get_device_record = λ t id. none;
  config_set_device_record = λ t id contents. pos 0;
  config_remove_device_record = λ t id. pos 0;
  include_hidden = λ t. false;
  Plist = List ℕ;
  plist_new_dict = [];
  plist_new_array = [];
  plist_new_string = λ s. s;
  plist_new_uint = λ n. n ∷ [];
  plist_dict_set_item = λ dict key item. item;
  plist_array_append_item = λ array item. item;
  plist_dict_get_item = λ dict key. none;
  plist_get_node_type = λ p. plist_other;
  plist_get_string_val = λ p. some p;
  plist_get_uint_val = λ p. none;
  plist_get_data_val = λ p. none;
  plist_new_data = λ bs. bs;
  plist_get_bool_val = λ p. none;
  plist_from_xml = λ bs. some bs;
  plist_to_xml = λ p. some p;
}

-- An active device of version 1 at address 10, with one connection at address 20.
abbrev pub phone : MuxDevice
phone = record {
  usbdev = 7;
  id = 1;
  state = muxdev_active;
  visible = true;
  connections = some (record { list = some 20 ∷ none ∷ [] });
  next_sport = 1;
  pktbuf = [];
  pktlen = 0;
  preflight_cb_data = none;
  version = 1;
  rx_seq = 0;
  tx_seq = 0;
  rx_data_events_socket = none;
  is_preflight_worker_running = false;
}

-- The connection of the client at address 30, with five bytes that wait for it.
abbrev pub session : MuxConnection
session = record {
  dev = 10;
  client = some 30;
  state = conn_connected;
  sport = 1;
  dport = 62078;
  tx_seq = 100;
  tx_ack = 50;
  tx_acked = 45;
  tx_win = 262139;
  rx_seq = 45;
  rx_ack = 90;
  rx_win = 131072;
  max_payload = 32728;
  sendable = 32728;
  ack_pending = true;
  ib_buf = 1 ∷ 2 ∷ 3 ∷ 4 ∷ 5 ∷ [];
  ib_size = 5;
  ib_capacity = 262144;
  ob_capacity = 65536;
  events = no_events;
  last_ack_time = 900;
}

-- A client that waits for the answer to its connect request.
abbrev pub waiting : MuxClient
waiting = record {
  fd = 4;
  ob_buf = some [];
  ob_size = 0;
  ob_capacity = 65536;
  ib_buf = some [];
  ib_size = 0;
  ib_capacity = 65536;
  events = record { pollin = true; pollout = false };
  devents = no_events;
  connect_tag = 9;
  connect_device = 1;
  state = client_connecting1;
  proto_version = 0;
}

abbrev pub at_address : {A : Type 0} → ℕ → A → ℕ → Option A
at_address a x p = usbmuxd_plugable_usb_msv.World.update (λ _. none) a (some x) p

abbrev pub world_of : MuxDevice → MuxConnection → MuxClient → World
world_of d c k = record {
  devices = at_address 10 d;
  conns = at_address 20 c;
  clients = at_address 30 k;
  device_list = record { list = some 10 ∷ none ∷ [] };
  client_list = record { list = some 30 ∷ none ∷ [] };
  next_device_id = 2;
  next_address = 40;
  trace = [];
}
