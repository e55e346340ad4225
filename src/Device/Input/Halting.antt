-- ===== src/Device/Input/Halting.antt =====
-- device.cpp: `device_tcp_input` and `device_client_process` end.
use usbmuxd_plugable_usb_msv.Prelude.{
  ℕ, List, [], ◌∷◌, ◌&&◌, Option, none, some, arith, ◌==◌, length, pos, negsuc, is_neg,
}
use usbmuxd_plugable_usb_msv.Collection
use usbmuxd_plugable_usb_msv.Wire.{th_ack_flag, TcpHeader, has_rst, MuxProtocol}
use usbmuxd_plugable_usb_msv.World.{
  MuxConnection, MuxConnState, Events, conn_connecting, conn_connected, conn_refused, conn_dying,
  conn_dead,
}
use usbmuxd_plugable_usb_msv.World.Host.{Host}
use usbmuxd_plugable_usb_msv.World.Step.{
  M, pure, ◌>>=◌, ◌>>◌, require, when, load_conn, load_device, put_conn,
}
use usbmuxd_plugable_usb_msv.World.Step.Ends.{
  Halts, Halts-bind, Halts-if, Halts-pure, Halts-require, Halts-load_conn, Halts-load_device,
  Halts-when, Halts-option,
}
use usbmuxd_plugable_usb_msv.Client.Reply.{client_notify_connect, client_set_events}
use usbmuxd_plugable_usb_msv.Device.Packet.{
  send_packet, transmit, usb_send, read_clock, send_tcp, send_anon_rst,
}
use usbmuxd_plugable_usb_msv.Device.Window.{refresh, overflows, take_in}
use usbmuxd_plugable_usb_msv.Device.Teardown.{connection_teardown, update_connection, send_tcp_ack}
use usbmuxd_plugable_usb_msv.Device.Teardown.Halting.{connection_teardown-Halts}
use usbmuxd_plugable_usb_msv.Client.Reply.Halting.{client_notify_connect-Halts}
use usbmuxd_plugable_usb_msv.Device.Input.{
  is_active, th_syn_ack, find_conn_by_ports, received, count_syn, connection_device_input,
  refuse_packet, connecting_input, connected_input, conn_input, device_tcp_input,
}

client_set_events-Halts : (p : Option ℕ) (e : Events) → Halts (client_set_events p e)
unfolding client_set_events
client_set_events-Halts p e w = ground arith

find_conn_by_ports-Halts :
    (ps : List ℕ) (sport dport : ℕ) → Halts (find_conn_by_ports ps sport dport)
unfolding find_conn_by_ports
find_conn_by_ports-Halts [] sport dport = Halts-pure {A = Option ℕ} none
find_conn_by_ports-Halts (p ∷ ps) sport dport = Halts-bind (load_conn p) _ (Halts-load_conn p) λ c.
    Halts-if (c.sport == sport && c.dport == dport) _ _ (Halts-pure (some p))
      (find_conn_by_ports-Halts ps sport dport)

by_state-Halts :
    (s : MuxConnState) (m k : M (Unit {0}))
    → Halts m
    → Halts k
    → Halts
        (elim s as (λ _. M (Unit {0})) [ conn_connecting ↦ m | conn_connected ↦ k | _ ↦ pure tt ])
by_state-Halts conn_connecting m k h j w = h w
by_state-Halts conn_connected m k h j w = j w
by_state-Halts conn_refused m k h j w = tt
by_state-Halts conn_dying m k h j w = tt
by_state-Halts conn_dead m k h j w = tt

module _ (host : Host) where
  pub send_packet-Halts :
      (dev : ℕ) (proto : MuxProtocol) (header payload : List ℕ)
      → Halts (send_packet host dev proto header payload)
  unfolding send_packet transmit usb_send
  send_packet-Halts dev proto header payload w = ground arith

  pub send_tcp-Halts :
      (conn flags : ℕ) (payload : List ℕ) → Halts (send_tcp host conn flags payload)
  unfolding send_tcp read_clock
  send_tcp-Halts conn flags payload = Halts-bind (load_conn conn) _ (Halts-load_conn conn) λ c.
      Halts-bind (send_packet host c.dev _ _ payload) _ (send_packet-Halts c.dev _ _ payload)
        λ res. Halts-if (is_neg res) _ _ (Halts-pure res) (λ v. tt)

  pub update_connection-Halts : (conn : ℕ) → Halts (update_connection host conn)
  unfolding update_connection
  update_connection-Halts conn = Halts-bind (load_conn conn) _ (Halts-load_conn conn) λ c.
      Halts-bind (put_conn conn (refresh c)) _ (λ v. tt)
        λ _.
          Halts-bind (client_set_events c.client (refresh c).events) (λ _. pure tt)
            (client_set_events-Halts c.client (refresh c).events) (λ _. Halts-pure tt)

  pub send_tcp_ack-Halts : (conn : ℕ) → Halts (send_tcp_ack host conn)
  unfolding send_tcp_ack
  send_tcp_ack-Halts conn =
      Halts-bind (send_tcp host conn th_ack_flag []) _ (send_tcp-Halts conn th_ack_flag []) λ res.
        Halts-if (is_neg res) _ _
          (Halts-bind (connection_teardown host conn) _ (connection_teardown-Halts host conn)
            λ _. Halts-pure (negsuc 0))
          (Halts-bind (update_connection host conn) _ (update_connection-Halts conn)
            λ _. Halts-pure (pos 0))

  connection_device_input-Halts :
      (conn : ℕ) (payload : List ℕ) → Halts (connection_device_input host conn payload)
  unfolding connection_device_input
  connection_device_input-Halts conn payload =
      Halts-bind (load_conn conn) _ (Halts-load_conn conn) λ c.
        Halts-if (overflows c (length payload)) _ _ (connection_teardown-Halts host conn) (
          Halts-bind (put_conn conn (take_in c payload)) _ (λ v. tt)
            λ _. update_connection-Halts conn)

  refuse_packet-Halts : (dev : ℕ) (th : TcpHeader) → Halts (refuse_packet host dev th)
  unfolding refuse_packet send_anon_rst
  refuse_packet-Halts dev th = Halts-if (has_rst th.th_flags) _ _ (Halts-pure tt) (
      Halts-bind (send_anon_rst host dev th.th_dport th.th_sport th.th_seq) _
        (send_packet-Halts dev _ _ _) λ res. Halts-if (is_neg res) _ _ (λ w. tt) (Halts-pure tt))

  connecting_input-Halts : (conn : ℕ) (th : TcpHeader) → Halts (connecting_input host conn th)
  unfolding connecting_input
  connecting_input-Halts conn th = Halts-bind (load_conn conn) _ (Halts-load_conn conn) λ c.
      Halts-if (th.th_flags == th_syn_ack) _ _
        (Halts-bind (put_conn conn (count_syn c)) _ (λ v. tt)
          λ _.
            Halts-bind (send_tcp host conn th_ack_flag []) _ (send_tcp-Halts conn th_ack_flag [])
              λ res.
                Halts-if (is_neg res) _ _ (connection_teardown-Halts host conn)
                  (Halts-bind (load_conn conn) _ (Halts-load_conn conn) accepted))
        (Halts-bind (when (has_rst th.th_flags) (put_conn conn (record c { state = conn_refused })))
          _ (Halts-when (has_rst th.th_flags) _ (λ v. tt)) λ _. connection_teardown-Halts host conn)
    where
      accepted :
          (c : MuxConnection)
          → Halts (do
            put_conn conn (record c { state = conn_connected })
            client ← require c.client
            told ← client_notify_connect host client 0
            when (is_neg told) (do
              c₂ ← load_conn conn
              put_conn conn (record c₂ { client = none })
              connection_teardown host conn)
            update_connection host conn)
      accepted c =
          Halts-bind (put_conn conn (record c { state = conn_connected })) _ (λ v. tt)
            λ _. Halts-bind (require c.client) _ (Halts-require c.client) λ client.
              Halts-bind (client_notify_connect host client 0) _
                (client_notify_connect-Halts host client 0)
                λ told.
                  Halts-bind _ _
                    (Halts-when (is_neg told) _ (
                      Halts-bind (load_conn conn) _ (Halts-load_conn conn) λ c₂.
                        Halts-bind (put_conn conn (record c₂ { client = none })) _ (λ v. tt)
                          λ _. connection_teardown-Halts host conn))
                    λ _. update_connection-Halts conn

  connected_input-Halts :
      (conn : ℕ) (th : TcpHeader) (payload : List ℕ) → Halts (connected_input host conn th payload)
  unfolding connected_input
  connected_input-Halts conn th payload =
      Halts-if (th.th_flags == th_ack_flag) _ _
        (Halts-bind (connection_device_input host conn payload) _
          (connection_device_input-Halts conn payload)
          λ _. Halts-bind (load_conn conn) _ (Halts-load_conn conn) λ c.
            Halts-when c.ack_pending _ (
              Halts-bind (send_tcp_ack host conn) (λ _. pure tt) (send_tcp_ack-Halts conn)
                (λ _. Halts-pure tt)))
        (Halts-bind (load_conn conn) _ (Halts-load_conn conn) λ c.
          Halts-bind (when (has_rst th.th_flags) (put_conn conn (record c { state = conn_dying })))
            _ (Halts-when (has_rst th.th_flags) _ (λ v. tt))
            λ _. connection_teardown-Halts host conn)

  conn_input-Halts :
      (conn : ℕ) (th : TcpHeader) (payload : List ℕ) → Halts (conn_input host conn th payload)
  unfolding conn_input
  conn_input-Halts conn th payload = Halts-bind (load_conn conn) _ (Halts-load_conn conn) λ c.
      Halts-bind (put_conn conn (received c th)) _ (λ v. tt)
        λ _.
          by_state-Halts c.state _ _ (connecting_input-Halts conn th)
            (connected_input-Halts conn th payload)

  -- `device_tcp_input` ends, whatever the device sends and whatever the world is.
  pub device_tcp_input-Halts :
      (dev : ℕ) (th : TcpHeader) (payload : List ℕ) → Halts (device_tcp_input host dev th payload)
  unfolding device_tcp_input
  device_tcp_input-Halts dev th payload =
      Halts-bind (load_device dev) _ (Halts-load_device dev) λ d.
        Halts-if (is_active d.state) _ _
          (Halts-bind (require d.connections) _ (Halts-require d.connections) λ conns.
            Halts-bind (find_conn_by_ports (Collection.items conns) th.th_dport th.th_sport) _
              (find_conn_by_ports-Halts (Collection.items conns) th.th_dport th.th_sport)
              λ found.
                Halts-option found _ _ (refuse_packet-Halts dev th)
                  (λ conn. conn_input-Halts conn th payload))
          (Halts-pure tt)
