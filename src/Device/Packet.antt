-- ===== src/Device/Packet.antt =====
-- device.cpp: `send_packet`, `send_anon_rst` and `send_tcp`.
pub mod Frame
use usbmuxd_plugable_usb_msv.Prelude.{
  ℕ, ◌+◌, ◌*◌, ◌/◌, ◌%◌, ◌^◌, List, [], ◌++◌, Bool, true, false, Option, none, some, ltb,
  if◌then◌else◌, length, take, ℤ, pos, negsuc, is_neg,
}
use usbmuxd_plugable_usb_msv.Wire.{
  MuxProtocol, mux_proto_version, mux_proto_control, mux_proto_setup, mux_proto_tcp,
  protocol_number, encode_short_header, encode_header, TcpHeader, encode_tcp, th_rst,
}
use usbmuxd_plugable_usb_msv.World.{MuxDevice, MuxConnection, usb_sent, clock_read}
use usbmuxd_plugable_usb_msv.World.Host.{Host}
use usbmuxd_plugable_usb_msv.World.Step.{
  M, pure, ◌>>=◌, ◌>>◌, emit, get_world, load_device, put_device, load_conn, put_conn,
}

-- `USB_MTU`
abbrev pub usb_mtu : ℕ
usb_mtu = 3 * 16384

-- The `switch` on the protocol; nothing for one that `send_packet` refuses.
unfoldable pub header_length : MuxProtocol → Option ℕ
header_length mux_proto_version = some 12
header_length mux_proto_setup = some 0
header_length mux_proto_tcp = some 20
header_length mux_proto_control = none

-- `dev->version < 2 ? 8 : sizeof(struct mux_header)`
unfoldable pub mux_header_size : ℕ → ℕ
mux_header_size version = if ltb version 2 then 8 else 16

abbrev is_setup : MuxProtocol → Bool
is_setup mux_proto_setup = true
is_setup _ = false

-- The sequence numbers that the packet carries: a setup packet starts them anew.
unfoldable pub start_seq : MuxProtocol → MuxDevice → MuxDevice
start_seq proto d = if is_setup proto then record d { tx_seq = 0; rx_seq = 0xFFFF } else d

-- The packet in `buffer`, for a device whose sequence numbers are set.
unfoldable pub build_packet : MuxDevice → MuxProtocol → ℕ → List ℕ → List ℕ → List ℕ
build_packet d proto total header payload =
    (if ltb d.version 2 then encode_short_header h else encode_header h) ++ (header ++ payload)
  where
    h : usbmuxd_plugable_usb_msv.Wire.MuxHeader
    h = record {
      protocol = protocol_number proto;
      length = total;
      magic = 0xfeedface;
      tx_seq = d.tx_seq;
      rx_seq = d.rx_seq;
    }

-- The device with the packet counted.
unfoldable pub sent_device : MuxDevice → MuxProtocol → MuxDevice
sent_device d proto =
    if ltb d.version 2
    then d
    else record (start_seq proto d) { tx_seq = ((start_seq proto d).tx_seq + 1) % 2 ^ 16 }

-- The packet of a device that counts its packets carries the numbers before the count.
unfoldable pub numbered : MuxDevice → MuxProtocol → MuxDevice
numbered d proto = if ltb d.version 2 then d else start_seq proto d

-- `th` of `send_tcp`; `th_off` is `sizeof(th) / 4`.
unfoldable pub tcp_header_of : MuxConnection → ℕ → TcpHeader
tcp_header_of c flags = record {
  th_sport = c.sport;
  th_dport = c.dport;
  th_seq = c.tx_seq;
  th_ack = c.tx_ack;
  th_x2 = 0;
  th_off = 5;
  th_flags = flags;
  th_win = c.tx_win / 256 % 2 ^ 16;
  th_sum = 0;
  th_urp = 0;
}

-- `th` of `send_anon_rst`
unfoldable pub anon_rst_header : ℕ → ℕ → ℕ → TcpHeader
anon_rst_header sport dport ack = record {
  th_sport = sport;
  th_dport = dport;
  th_seq = 0;
  th_ack = ack;
  th_x2 = 0;
  th_off = 5;
  th_flags = th_rst;
  th_win = 0;
  th_sum = 0;
  th_urp = 0;
}

module _ (host : Host) where
  -- `mstime64`
  unfoldable pub read_clock : M ℕ
  read_clock = do w ← get_world; emit clock_read; pure (host.mstime w.trace)

  -- `usb_send` hands the packet over and says how it went.
  unfoldable pub usb_send : ℕ → List ℕ → M ℤ
  usb_send usbdev bytes = do
    w ← get_world
    emit (usb_sent usbdev bytes)
    pure (host.usb_send w.trace usbdev bytes)

  -- `send_packet` behind its checks, with the total size known.
  unfoldable pub transmit : ℕ → MuxProtocol → ℕ → List ℕ → List ℕ → M ℤ
  transmit dev proto total header payload = do
    d ← load_device dev
    put_device dev (sent_device d proto)
    res ← usb_send d.usbdev (build_packet (numbered d proto) proto total header payload)
    pure (if is_neg res then res else pos total)

  -- `send_packet`
  unfoldable pub send_packet : ℕ → MuxProtocol → List ℕ → List ℕ → M ℤ
  send_packet dev proto header payload = elim (header_length proto) [
    | none ↦ pure (negsuc 0)
    | some hdrlen ↦ do
      d ← load_device dev
      let total = mux_header_size d.version + hdrlen + length payload
      if ltb usb_mtu total
          then pure (negsuc 0)
          else transmit dev proto total (take hdrlen header) payload
  ]

  -- `send_anon_rst`
  unfoldable pub send_anon_rst : ℕ → ℕ → ℕ → ℕ → M ℤ
  send_anon_rst dev sport dport ack =
      send_packet dev mux_proto_tcp (encode_tcp (anon_rst_header sport dport ack)) []

  -- `send_tcp`: what was acknowledged is noted only when the packet went out.
  unfoldable pub send_tcp : ℕ → ℕ → List ℕ → M ℤ
  send_tcp conn flags payload = do
    c ← load_conn conn
    res ← send_packet c.dev mux_proto_tcp (encode_tcp (tcp_header_of c flags)) payload
    if is_neg res then pure res else (do
      now ← read_clock
      put_conn conn (record c { tx_acked = c.tx_ack; last_ack_time = now; ack_pending = false })
      pure res)
