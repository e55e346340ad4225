-- ===== src/Device/Window.antt =====
-- device.cpp: the windows of a connection: `update_connection`, and what input and output do to
-- the counters.
pub mod Flow
use usbmuxd_plugable_usb_msv.Prelude.{
  ℕ, ◌+◌, ◌-◌, ◌%◌, ◌^◌, List, [], ◌++◌, Bool, false, not, ltb, ◌==◌, if◌then◌else◌, length, take,
  drop, some,
}
use usbmuxd_plugable_usb_msv.World.{MuxConnection, conn_connecting, no_events}

-- `CONN_INBUF_SIZE`
abbrev pub conn_inbuf_size : ℕ
conn_inbuf_size = 262144

-- `CONN_OUTBUF_SIZE`
abbrev pub conn_outbuf_size : ℕ
conn_outbuf_size = 65536

-- `MAX_MUX_PACKET_SIZE`
abbrev pub max_mux_packet_size : ℕ
max_mux_packet_size = 0x7FFC

-- `sent = conn->tx_seq - conn->rx_ack`, in `uint32_t`
unfoldable pub in_flight : MuxConnection → ℕ
in_flight c = (c.tx_seq + 2 ^ 32 - c.rx_ack) % 2 ^ 32

abbrev at_most : ℕ → ℕ → ℕ
at_most bound n = if ltb bound n then bound else n

-- `conn->sendable`
unfoldable pub sendable_of : MuxConnection → ℕ
sendable_of c =
    at_most c.max_payload
      (at_most c.ob_capacity (if ltb (in_flight c) c.rx_win then c.rx_win - in_flight c else 0))

-- The fields that `update_connection` sets.
unfoldable pub refresh : MuxConnection → MuxConnection
refresh c = record c {
  sendable = sendable_of c;
  events = record { pollin = ltb 0 (sendable_of c); pollout = not (c.ib_size == 0) };
  ack_pending = not (c.tx_acked == c.tx_ack);
}

-- The connection that `device_start_connect` fills in.
unfoldable pub new_connection : ℕ → ℕ → ℕ → ℕ → MuxConnection
new_connection dev client sport dport = record {
  dev = dev;
  client = some client;
  state = conn_connecting;
  sport = sport;
  dport = dport;
  tx_seq = 0;
  tx_ack = 0;
  tx_acked = 0;
  tx_win = conn_inbuf_size;
  rx_seq = 0;
  rx_ack = 0;
  rx_win = 0;
  max_payload = max_mux_packet_size - 16 - 20;
  sendable = 0;
  ack_pending = false;
  ib_buf = [];
  ib_size = 0;
  ib_capacity = conn_inbuf_size;
  ob_capacity = conn_outbuf_size;
  events = no_events;
  last_ack_time = 0;
}

-- The test of `connection_device_input` for room, in `uint32_t`.
unfoldable pub overflows : MuxConnection → ℕ → Bool
overflows c n = ltb c.ib_capacity ((c.ib_size + n) % 2 ^ 32)

-- `connection_device_input` on a payload that fits.
unfoldable pub take_in : MuxConnection → List ℕ → MuxConnection
take_in c payload = record c {
  ib_buf = take c.ib_size c.ib_buf ++ payload;
  ib_size = (c.ib_size + length payload) % 2 ^ 32;
  tx_win = (c.tx_win + 2 ^ 32 - length payload) % 2 ^ 32;
  tx_ack = (c.tx_ack + length payload) % 2 ^ 32;
}

-- `size` bytes of the in-buffer are gone; the rest moves to the front.
unfoldable pub drop_written : MuxConnection → ℕ → MuxConnection
drop_written c size =
    if size == c.ib_size
    then record c { ib_size = 0 }
    else record c { ib_size = (c.ib_size + 2 ^ 32 - size) % 2 ^ 32; ib_buf = drop size c.ib_buf }

-- `device_client_process` after a write to the client of `size` bytes.
unfoldable pub flushed : MuxConnection → ℕ → MuxConnection
flushed c size = record (drop_written c size) { tx_win = (c.tx_win + size) % 2 ^ 32 }

-- `device_client_process` after `size` bytes of the client went to the device.
unfoldable pub sent_on : MuxConnection → ℕ → MuxConnection
sent_on c size = record c { tx_seq = (c.tx_seq + size) % 2 ^ 32 }
