-- ===== src/Device/Input/Forward.antt =====
-- device.cpp: what `device_client_process` reads from a client goes to the device.
use usbmuxd_plugable_usb_msv.Prelude.{
  ℕ, ◌+◌, ◌%◌, ◌^◌, ◌≤◌, ◌<◌, ◌≡◌, ◌⊎◌, inl, inr, ◌∙◌, ◌-◌, if◌then◌else◌, List, ◌∷◌, true, false,
  ◌&&◌, some, arith, length, drop, ltb, Bool-cases, is_neg, pos,
}
use usbmuxd_plugable_usb_msv.Wire.{mux_proto_tcp, th_ack_flag, read_tcp}
use usbmuxd_plugable_usb_msv.World.{
  World, Events, MuxDevice, MuxConnection, MuxClient, client_connected, sock_received, clock_read,
  update,
}
use usbmuxd_plugable_usb_msv.World.Host.{Host}
use usbmuxd_plugable_usb_msv.World.Step.{done}
use usbmuxd_plugable_usb_msv.Client.Reply.{client_read, client_set_events, with_events}
use usbmuxd_plugable_usb_msv.Device.Packet.{send_tcp, mux_header_size, tcp_header_of}
use usbmuxd_plugable_usb_msv.Device.Packet.Frame.{FitsConn, acked, after_packet, send_tcp_lem}
use usbmuxd_plugable_usb_msv.Device.Window.{refresh, sent_on}
use usbmuxd_plugable_usb_msv.Device.Teardown.{
  get_mux_connection, connection_teardown, update_connection,
}
use usbmuxd_plugable_usb_msv.Device.Input.{forward_input, process_input, device_client_process}

-- A connection of a connected client to a device, with counters that fit a packet.
pub record IsLinked (conn : ℕ) (c : MuxConnection) (d : MuxDevice) (q : ℕ) (k : MuxClient)
    (w : World) : Type 0 where
  pub at_conn : w.conns conn ≡ some c
  pub at_dev : w.devices c.dev ≡ some d
  pub at_client : w.clients q ≡ some k
  pub owned : c.client ≡ some q
  pub connected : k.state ≡ client_connected
  pub fits : FitsConn c
  pub bounded : c.sendable ≤ 0x7FFC - 16 - 20

module _ (host : Host) where
  client_read-connected :
      (q len : ℕ) (k : MuxClient) (w : World)
      → w.clients q ≡ some k
      → k.state ≡ client_connected
      → client_read host q len w
        ≡ done (host.recv w.trace k.fd len) (record w { trace = sock_received k.fd len ∷ w.trace })
  unfolding client_read
  client_read-connected q len k w at on = ground arith

  -- The world after `update_connection`, for a client that is connected.
  abbrev pub refreshed : ℕ → MuxConnection → ℕ → MuxClient → World → World
  refreshed conn c q k v = record v {
    conns = update v.conns conn (some (refresh c));
    clients =
        update v.clients q
          (some (record k { devents = (refresh c).events; events = (refresh c).events }));
  }

  update_connection-refreshed :
      (conn : ℕ) (c : MuxConnection) (q : ℕ) (k : MuxClient) (v : World)
      → v.conns conn ≡ some c
      → c.client ≡ some q
      → v.clients q ≡ some k
      → k.state ≡ client_connected
      → update_connection host conn v ≡ done tt (refreshed conn c q k v)
  unfolding update_connection client_set_events with_events
  update_connection-refreshed conn c q k v at owned at_client on = ground arith

  module _ (conn : ℕ) (c : MuxConnection) (d : MuxDevice) (q : ℕ) (k : MuxClient) (w : World)
      (linked : IsLinked conn c d q k w) where
    -- The world once the client was read from.
    abbrev pub after_read : World
    after_read = record w { trace = sock_received k.fd c.sendable ∷ w.trace }

    -- The world once the device was handed a packet, and once it has taken the packet: what was
    -- acknowledged is noted with the time, and the bytes are counted.
    abbrev pub after_forward : List ℕ → World
    after_forward packet = after_packet host c.dev d after_read linked.at_dev mux_proto_tcp packet

    abbrev pub forwarded : List ℕ → ℕ → MuxConnection
    forwarded packet size = record (acked c (host.mstime (after_forward packet).trace)) {
      tx_seq = (c.tx_seq + size) % 2 ^ 32;
    }

    abbrev pub after_taken : List ℕ → ℕ → World
    after_taken packet size = record (after_forward packet) {
      conns =
          update (update w.conns conn (some (acked c (host.mstime (after_forward packet).trace))))
            conn (some (forwarded packet size));
      trace = clock_read ∷ (after_forward packet).trace;
    }

    forward_input_cases :
        (b : ℕ) (bs packet : List ℕ)
        → host.recv w.trace k.fd c.sendable ≡ some (b ∷ bs)
        → (let v = after_forward packet in
            let res = host.usb_send after_read.trace d.usbdev packet in
            send_tcp host conn th_ack_flag (b ∷ bs) after_read ≡ (
              if is_neg res
              then done res v
              else done (pos (length packet)) (record v {
                conns = update w.conns conn (some (acked c (host.mstime v.trace)));
                trace = clock_read ∷ v.trace;
              })))
        → let res = host.usb_send after_read.trace d.usbdev packet in
          let size = length (b ∷ bs) in
          ((is_neg res ≡ true)
            × (forward_input host conn w ≡ connection_teardown host conn (after_forward packet)))
          ⊎ ((is_neg res ≡ false)
              × (forward_input host conn w
                  ≡ done tt (refreshed conn (forwarded packet size) q k (after_taken packet size))))
    unfolding forward_input sent_on
    forward_input_cases b bs packet got sent =
        let read = client_read-connected q c.sendable k w linked.at_client linked.connected in
        let res = host.usb_send after_read.trace d.usbdev packet in
        let size = length (b ∷ bs) in
        elim (Bool-cases (is_neg res)) [
          | inl refused ↦
              inl (refused, ground (arith, linked.at_conn, linked.owned, read, got, sent, refused))
          | inr taken ↦ inr (
            taken,
            ground (
              arith,
              linked.at_conn,
              linked.owned,
              read,
              got,
              sent,
              taken,
              update_connection-refreshed conn (forwarded packet size) q k (after_taken packet size)
                  (ground arith) linked.owned linked.at_client linked.connected,
            ),
          )
        ]

    process_input-forward :
        (events : Events)
        → events.pollin ≡ true
        → 0 < c.sendable
        → process_input host conn events w ≡ forward_input host conn w
    unfolding process_input
    process_input-forward events polls room = ground (arith, linked.at_conn)

    device_client_process-input :
        (device_id : ℕ) (events : Events)
        → get_mux_connection device_id q w ≡ done (some conn) w
        → (events.pollout && ltb 0 c.ib_size) ≡ false
        → device_client_process host device_id q events w ≡ process_input host conn events w
    unfolding device_client_process
    device_client_process-input device_id events found quiet =
        ground (arith, linked.at_conn, found, quiet)

    -- When a client that is connected has bytes for its connection, whose counters fit a packet
    -- and which may send no more than one holds, and nothing is written to the client,
    -- `device_client_process` reads at most what the connection may send, and hands the device one
    -- packet, with the connection's header and exactly the bytes that were read. If the USB stack
    -- refuses it, the connection is torn down. Otherwise the bytes are counted in the sequence
    -- number, the acknowledgement is noted, and the connection and its client get their new masks;
    -- nothing else changes but the count of the device's packets and the record of the calls.
    pub device_client_process_lem :
        (device_id : ℕ) (events : Events) (b : ℕ) (bs : List ℕ)
        → get_mux_connection device_id q w ≡ done (some conn) w
        → events.pollin ≡ true
        → (events.pollout && ltb 0 c.ib_size) ≡ false
        → 0 < c.sendable
        → host.recv w.trace k.fd c.sendable ≡ some (b ∷ bs)
        → (packet : List ℕ) × (read_tcp (drop (mux_header_size d.version) packet)
            ≡ some (tcp_header_of c th_ack_flag, b ∷ bs))
          × (let res = host.usb_send after_read.trace d.usbdev packet in
              let size = length (b ∷ bs) in
              let process = device_client_process host device_id q events w in
              ((is_neg res ≡ true)
                × (process ≡ connection_teardown host conn (after_forward packet)))
              ⊎ ((is_neg res ≡ false)
                  × (process
                      ≡ done tt
                          (refreshed conn (forwarded packet size) q k (after_taken packet size)))))
    unfolding tcp_header_of
    device_client_process_lem device_id events b bs found polls quiet room got =
        let (packet, sent, header) =
          send_tcp_lem host conn c d after_read linked.at_conn linked.at_dev th_ack_flag (b ∷ bs)
            linked.fits (omega arith) (short (b ∷ bs) got) in
        let same =
          device_client_process-input device_id events found quiet
          ∙ process_input-forward events polls room in
        (
          packet,
          header,
          elim (forward_input_cases b bs packet got sent) [
            | inl (refused, ends) ↦ inl (refused, same ∙ ends)
            | inr (taken, ends) ↦ inr (taken, same ∙ ends)
          ],
        )
      where
        short :
            (bytes : List ℕ)
            → host.recv w.trace k.fd c.sendable ≡ some bytes
            → length bytes ≤ 0x7FFC - 16 - 20
        short bytes e =
            omega (arith, host.recv_at_most w.trace k.fd c.sendable bytes e, linked.bounded)
