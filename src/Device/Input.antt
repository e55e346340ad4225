-- ===== src/Device/Input.antt =====
-- device.cpp: `connection_device_input`, `device_tcp_input` and `device_client_process`: what a
-- connection does with a packet of the device and with the socket of its client.
pub mod Halting
pub mod Forward
pub mod Relay
use usbmuxd_plugable_usb_msv.Prelude.{
  ℕ, ◌+◌, ◌*◌, ◌%◌, ◌^◌, List, [], ◌∷◌, Bool, true, false, ◌&&◌, Option, none, some, ltb, ◌==◌,
  if◌then◌else◌, length, take, is_neg, is_nonpos, pos_part,
}
use usbmuxd_plugable_usb_msv.Collection
use usbmuxd_plugable_usb_msv.Wire.{TcpHeader, th_ack_flag, has_rst}
use usbmuxd_plugable_usb_msv.World.{
  MuxConnection, MuxDevState, muxdev_active, conn_connecting, conn_connected, conn_refused,
  conn_dying, Events,
}
use usbmuxd_plugable_usb_msv.World.Host.{Host}
use usbmuxd_plugable_usb_msv.World.Step.{
  M, pure, ◌>>=◌, ◌>>◌, fault, require, when, load_conn, put_conn, load_device,
}
use usbmuxd_plugable_usb_msv.Client.Reply.{client_read, client_write, client_notify_connect}
use usbmuxd_plugable_usb_msv.Device.Packet.{send_tcp, send_anon_rst}
use usbmuxd_plugable_usb_msv.Device.Window.{
  overflows, take_in, flushed, sent_on, max_mux_packet_size,
}
use usbmuxd_plugable_usb_msv.Device.Teardown.{
  connection_teardown, update_connection, send_tcp_ack, get_mux_connection,
}

abbrev pub is_active : MuxDevState → Bool
is_active muxdev_active = true
is_active _ = false

-- `TH_SYN | TH_ACK`
abbrev pub th_syn_ack : ℕ
th_syn_ack = 0x12

-- The first connection of the list with these ports.
unfoldable pub find_conn_by_ports : List ℕ → ℕ → ℕ → M (Option ℕ)
find_conn_by_ports [] sport dport = pure none
find_conn_by_ports (p ∷ ps) sport dport = do
  c ← load_conn p
  if c.sport == sport && c.dport == dport then pure (some p) else find_conn_by_ports ps sport dport

-- The fields that any packet of the device sets.
unfoldable pub received : MuxConnection → TcpHeader → MuxConnection
received c th = record c { rx_seq = th.th_seq; rx_ack = th.th_ack; rx_win = th.th_win * 256 }

-- `conn->tx_seq++; conn->tx_ack++`
unfoldable pub count_syn : MuxConnection → MuxConnection
count_syn c = record c { tx_seq = (c.tx_seq + 1) % 2 ^ 32; tx_ack = (c.tx_ack + 1) % 2 ^ 32 }

module _ (host : Host) where
  -- `connection_device_input`
  unfoldable pub connection_device_input : ℕ → List ℕ → M (Unit {0})
  connection_device_input conn payload = do
    c ← load_conn conn
    if overflows c (length payload)
        then connection_teardown host conn
        else (put_conn conn (take_in c payload) >> update_connection host conn)

  -- The answer to a packet for which there is no connection; the log of a failed answer reads
  -- through the null pointer `conn`.
  unfoldable pub refuse_packet : ℕ → TcpHeader → M (Unit {0})
  refuse_packet dev th = if has_rst th.th_flags then pure tt else (do
    res ← send_anon_rst host dev th.th_dport th.th_sport th.th_seq
    if is_neg res then (λ w. fault) else pure tt)

  -- `device_tcp_input` on a connection that awaits the answer to its SYN.
  unfoldable pub connecting_input : ℕ → TcpHeader → M (Unit {0})
  connecting_input conn th = do
    c ← load_conn conn
    if th.th_flags == th_syn_ack
        then (do
          put_conn conn (count_syn c)
          res ← send_tcp host conn th_ack_flag []
          if is_neg res then connection_teardown host conn else (do
            c₁ ← load_conn conn
            put_conn conn (record c₁ { state = conn_connected })
            client ← require c₁.client
            told ← client_notify_connect host client 0
            when (is_neg told) (do
              c₂ ← load_conn conn
              put_conn conn (record c₂ { client = none })
              connection_teardown host conn)
            update_connection host conn))
        else (do
          when (has_rst th.th_flags) (put_conn conn (record c { state = conn_refused }))
          connection_teardown host conn)

  -- `device_tcp_input` on an established connection.
  unfoldable pub connected_input : ℕ → TcpHeader → List ℕ → M (Unit {0})
  connected_input conn th payload =
      if th.th_flags == th_ack_flag
      then (do
        connection_device_input conn payload
        c ← load_conn conn
        when c.ack_pending (send_tcp_ack host conn >> pure tt))
      else (do
        c ← load_conn conn
        when (has_rst th.th_flags) (put_conn conn (record c { state = conn_dying }))
        connection_teardown host conn)

  -- `device_tcp_input` on the connection that the packet is for.
  unfoldable pub conn_input : ℕ → TcpHeader → List ℕ → M (Unit {0})
  conn_input conn th payload = do
    c ← load_conn conn
    put_conn conn (received c th)
    elim c.state [
      | conn_connecting ↦ connecting_input conn th
      | conn_connected ↦ connected_input conn th payload
      | _ ↦ pure tt
    ]

  -- `device_tcp_input`
  unfoldable pub device_tcp_input : ℕ → TcpHeader → List ℕ → M (Unit {0})
  device_tcp_input dev th payload = do
    d ← load_device dev
    if is_active d.state
        then (do
          conns ← require d.connections
          found ← find_conn_by_ports (Collection.items conns) th.th_dport th.th_sport
          elim found [ none ↦ refuse_packet dev th | some conn ↦ conn_input conn th payload ])
        else pure tt

  -- `device_client_process`, the part that reads from the client.
  unfoldable pub forward_input : ℕ → M (Unit {0})
  forward_input conn = do
    c ← load_conn conn
    client ← require c.client
    got ← client_read host client c.sendable
    elim got [
      | none ↦ connection_teardown host conn
      | some [] ↦ connection_teardown host conn
      | some (b ∷ bs) ↦ do
        res ← send_tcp host conn th_ack_flag (b ∷ bs)
        if is_neg res then connection_teardown host conn else (do
          c₁ ← load_conn conn
          put_conn conn (sent_on c₁ (length (b ∷ bs)))
          update_connection host conn)
    ]

  -- The second half of `device_client_process`.
  unfoldable pub process_input : ℕ → Events → M (Unit {0})
  process_input conn events = do
    c ← load_conn conn
    if events.pollin && ltb 0 c.sendable then forward_input conn else update_connection host conn

  -- The first half of `device_client_process`; false if the connection was torn down.
  unfoldable pub process_output : ℕ → M Bool
  process_output conn = do
    c ← load_conn conn
    client ← require c.client
    size ← client_write host client (take c.ib_size c.ib_buf)
    if is_nonpos size then (connection_teardown host conn >> pure false) else (do
      put_conn conn (flushed c (pos_part size))
      when (ltb c.tx_win max_mux_packet_size) (send_tcp_ack host conn >> pure tt)
      pure true)

  -- `device_client_process`
  unfoldable pub device_client_process : ℕ → ℕ → Events → M (Unit {0})
  device_client_process device_id client events = do
    found ← get_mux_connection device_id client
    elim found [
      | none ↦ pure tt
      | some conn ↦ do
        c ← load_conn conn
        if events.pollout && ltb 0 c.ib_size
            then (do
              alive ← process_output conn
              if alive then process_input conn events else pure tt)
            else process_input conn events
    ]
