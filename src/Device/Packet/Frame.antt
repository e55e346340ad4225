-- ===== src/Device/Packet/Frame.antt =====
-- device.cpp: what `send_packet` and `send_tcp` put on the wire.
use usbmuxd_plugable_usb_msv.Prelude.{
  ◌/◌, ◌%◌, ◌⊎◌, inl, inr, ltb, Bool-cases, ℕ, ◌+◌, ◌-◌, ◌^◌, ◌≤◌, ◌<◌, ◌≡◌, refl, List, ◌∷◌, ◌++◌,
  false, some, arith, if◌then◌else◌, length, drop, pos, negsuc, is_neg, take_all, length-append,
}
use usbmuxd_plugable_usb_msv.Wire.{
  MuxProtocol, mux_proto_version, mux_proto_control, mux_proto_setup, mux_proto_tcp,
  protocol_number, encode_short_header, encode_header, TcpHeader, encode_tcp, read_short_header,
  read_tcp, read_be32,
}
use usbmuxd_plugable_usb_msv.Wire.RoundTrip.{length-encode_tcp, read_tcp-encode_tcp, FitsTcp}
use usbmuxd_plugable_usb_msv.World.{World, MuxDevice, MuxConnection, usb_sent, clock_read, update}
use usbmuxd_plugable_usb_msv.World.Host.{Host}
use usbmuxd_plugable_usb_msv.World.Step.{done}
use usbmuxd_plugable_usb_msv.Device.Packet.{
  usb_mtu, header_length, mux_header_size, start_seq, build_packet, sent_device, numbered,
  tcp_header_of, read_clock, send_packet, send_tcp, transmit, usb_send,
}

protocol_fits : (proto : MuxProtocol) → protocol_number proto < 256
protocol_fits mux_proto_version = omega arith
protocol_fits mux_proto_control = omega arith
protocol_fits mux_proto_setup = omega arith
protocol_fits mux_proto_tcp = omega arith

-- A packet carries its protocol and its own length, and behind the mux header what it was given.
pub build_packet_lem :
    (d : MuxDevice) (proto : MuxProtocol) (total : ℕ) (header payload : List ℕ)
    → total ≡ mux_header_size d.version + (length header + length payload)
    → total < 2 ^ 32
    → let packet = build_packet d proto total header payload in
      (length packet ≡ total)
      × (read_short_header packet ≡ some (protocol_number proto, total))
      × (drop (mux_header_size d.version) packet ≡ header ++ payload)
unfolding build_packet mux_header_size encode_short_header encode_header read_short_header read_be32
build_packet_lem d proto total header payload e h =
    ground (arith, length-append header payload, protocol_fits proto)

version-numbered : (d : MuxDevice) (proto : MuxProtocol) → (numbered d proto).version ≡ d.version
unfolding numbered start_seq
version-numbered d proto = ground arith

-- The total size that `send_packet` computes.
abbrev pub total_size : MuxDevice → List ℕ → List ℕ → ℕ
total_size d header payload = mux_header_size d.version + length header + length payload

module _ (host : Host) (dev : ℕ) (d : MuxDevice) (w : World) (found : w.devices dev ≡ some d) where
  -- The world after a packet was handed to the USB device.
  abbrev pub after_packet : MuxProtocol → List ℕ → World
  after_packet proto packet = record w {
    devices = update w.devices dev (some (sent_device d proto));
    trace = usb_sent d.usbdev packet ∷ w.trace;
  }

  -- `send_packet` on a packet that fits.
  pub send_packet-fits :
      (proto : MuxProtocol) (header payload : List ℕ)
      → header_length proto ≡ some (length header)
      → total_size d header payload ≤ usb_mtu
      → let total = total_size d header payload in
        let packet = build_packet (numbered d proto) proto total header payload in
        let res = host.usb_send w.trace d.usbdev packet in
        send_packet host dev proto header payload w
        ≡ done (if is_neg res then res else pos total) (after_packet proto packet)
  unfolding send_packet transmit usb_send
  send_packet-fits proto header payload hl h = ground (arith, take_all header (length header) refl)

  -- `send_packet` on a packet that does not fit.
  pub send_packet-too_large :
      (proto : MuxProtocol) (header payload : List ℕ)
      → header_length proto ≡ some (length header)
      → usb_mtu < total_size d header payload
      → send_packet host dev proto header payload w ≡ done (negsuc 0) w
  unfolding send_packet transmit usb_send
  send_packet-too_large proto header payload hl h = ground arith

  -- What `send_packet` sends when it sends something.
  send_packet_frame :
      (proto : MuxProtocol) (header payload : List ℕ)
      → header_length proto ≡ some (length header)
      → total_size d header payload ≤ usb_mtu
      → let total = total_size d header payload in
        (packet : List ℕ) × (send_packet host dev proto header payload w
          ≡ done
              (let res = host.usb_send w.trace d.usbdev packet in
                if is_neg res then res else pos total)
              (after_packet proto packet))
        × (length packet ≡ total)
        × (read_short_header packet ≡ some (protocol_number proto, total))
        × (drop (mux_header_size d.version) packet ≡ header ++ payload)
  unfolding numbered
  send_packet_frame proto header payload hl h =
      let facts =
        build_packet_lem (numbered d proto) proto total header payload size (omega arith) in
      (
        build_packet (numbered d proto) proto total header payload,
        send_packet-fits proto header payload hl h,
        facts.0,
        facts.1,
        behind facts.2,
      )
    where
      total : ℕ
      total = total_size d header payload

      size : total ≡ mux_header_size (numbered d proto).version + (length header + length payload)
      size = rw (version-numbered d proto) (omega arith)

      behind :
          drop
              (mux_header_size (numbered d proto).version)
              (build_packet (numbered d proto) proto total header payload)
            ≡ header ++ payload
          → drop
              (mux_header_size d.version)
              (build_packet (numbered d proto) proto total header payload)
            ≡ header ++ payload
      behind e = rw (version-numbered d proto) at e

  -- A packet of `send_packet` that fits the MTU goes out once, with the protocol and its own length
  -- in front, and behind the mux header exactly the header and the payload it was given; the result
  -- is its length, or the error of the USB stack. One that does not fit is refused: nothing is sent
  -- and nothing changes.
  pub send_packet_lem :
      (proto : MuxProtocol) (header payload : List ℕ)
      → header_length proto ≡ some (length header)
      → let total = total_size d header payload in
        let result = send_packet host dev proto header payload w in
        ((total ≤ usb_mtu)
          × ((packet : List ℕ) × (result
                ≡ done
                    (let res = host.usb_send w.trace d.usbdev packet in
                      if is_neg res then res else pos total)
                    (after_packet proto packet))
              × (length packet ≡ total)
              × (read_short_header packet ≡ some (protocol_number proto, total))
              × (drop (mux_header_size d.version) packet ≡ header ++ payload)))
        ⊎ ((usb_mtu < total) × (result ≡ done (negsuc 0) w))
  send_packet_lem proto header payload hl =
      elim (Bool-cases (ltb usb_mtu (total_size d header payload))) [
        | inl large ↦
            inr (ground arith, send_packet-too_large proto header payload hl (ground arith))
        | inr fits ↦ inl (ground arith, send_packet_frame proto header payload hl (ground arith))
      ]

-- The counters of a connection fit the fields of a TCP header.
pub record FitsConn (c : MuxConnection) : Type 0 where
  pub sport_fits : c.sport < 2 ^ 16
  pub dport_fits : c.dport < 2 ^ 16
  pub seq_fits : c.tx_seq < 2 ^ 32
  pub ack_fits : c.tx_ack < 2 ^ 32

tcp_header_of-FitsTcp :
    (c : MuxConnection) (flags : ℕ) → FitsConn c → flags < 256 → FitsTcp (tcp_header_of c flags)
unfolding tcp_header_of
tcp_header_of-FitsTcp c flags f h = omega arith

tcp_length : (th : TcpHeader) → header_length mux_proto_tcp ≡ some (length (encode_tcp th))
unfolding header_length encode_tcp
tcp_length th = refl

-- `max_payload` leaves room for the longest headers.
fits_mtu :
    (d : MuxDevice) (th : TcpHeader) (payload : List ℕ)
    → length payload ≤ 0x7FFC - 16 - 20
    → total_size d (encode_tcp th) payload ≤ usb_mtu
unfolding mux_header_size
fits_mtu d th payload h = ground (arith, length-encode_tcp th)

-- The connection after a packet of it went out.
abbrev pub acked : MuxConnection → ℕ → MuxConnection
acked c now = record c { tx_acked = c.tx_ack; last_ack_time = now; ack_pending = false }

module _ (host : Host) (conn : ℕ) (c : MuxConnection) (d : MuxDevice) (w : World)
    (at_conn : w.conns conn ≡ some c) (at_dev : w.devices c.dev ≡ some d) where
  -- `send_tcp` with a payload of at most `max_payload` bytes always comes to a transfer: the packet
  -- that the USB stack is given reads back as a header with the ports, the numbers and the
  -- window of the connection, and the payload. Only if
  -- the stack takes it does the connection note the acknowledgement that the packet carries.
  pub send_tcp_lem :
      (flags : ℕ) (payload : List ℕ)
      → FitsConn c
      → flags < 256
      → length payload ≤ 0x7FFC - 16 - 20
      → (packet : List ℕ) × (send_tcp host conn flags payload w ≡ (
          let v = after_packet host c.dev d w at_dev mux_proto_tcp packet in
          let res = host.usb_send w.trace d.usbdev packet in
          if is_neg res
          then done res v
          else done (pos (length packet)) (record v {
            conns = update w.conns conn (some (acked c (host.mstime v.trace)));
            trace = clock_read ∷ v.trace;
          })))
        × (read_tcp (drop (mux_header_size d.version) packet)
            ≡ some (
              record {
                th_sport = c.sport;
                th_dport = c.dport;
                th_seq = c.tx_seq;
                th_ack = c.tx_ack;
                th_x2 = 0;
                th_off = 5;
                th_flags = flags;
                th_win = c.tx_win / 256 % 2 ^ 16;
                th_sum = 0;
                th_urp = 0;
              },
              payload,
            ))
  unfolding send_tcp read_clock tcp_header_of
  send_tcp_lem flags payload f hf h = (
    sent.0,
    ground (arith, sent.1, sent.2),
    rw sent.4 (read_tcp-encode_tcp th payload (tcp_header_of-FitsTcp c flags f hf)),
  )
    where
      th : TcpHeader
      th = tcp_header_of c flags

      sent :
          (packet : List ℕ) × (send_packet host c.dev mux_proto_tcp (encode_tcp th) payload w
            ≡ done
                (let res = host.usb_send w.trace d.usbdev packet in
                  if is_neg res then res else pos (total_size d (encode_tcp th) payload))
                (after_packet host c.dev d w at_dev mux_proto_tcp packet))
          × (length packet ≡ total_size d (encode_tcp th) payload)
          × (read_short_header packet ≡ some (6, total_size d (encode_tcp th) payload))
          × (drop (mux_header_size d.version) packet ≡ encode_tcp th ++ payload)
      sent =
          send_packet_frame host c.dev d w at_dev mux_proto_tcp (encode_tcp th) payload
            (tcp_length th) (fits_mtu d th payload h)
