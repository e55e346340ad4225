-- ===== src/Device/Input/Relay.antt =====
-- device.cpp: `device_client_process` ends.
use usbmuxd_plugable_usb_msv.Prelude.{
  ℕ, ◌≡◌, List, [], ◌∷◌, ◌&&◌, true, false, Option, none, some, arith, ltb, if◌then◌else◌, length,
  take, is_neg, is_nonpos, pos_part,
}
use usbmuxd_plugable_usb_msv.Wire.{th_ack_flag}
use usbmuxd_plugable_usb_msv.World.{Events}
use usbmuxd_plugable_usb_msv.World.Host.{Host}
use usbmuxd_plugable_usb_msv.World.Step.{M, pure, ◌>>=◌, ◌>>◌, require, when, load_conn, put_conn}
use usbmuxd_plugable_usb_msv.World.Step.Ends.{
  Halts, Halts-bind, Halts-if, Halts-pure, Halts-require, Halts-load_conn, Halts-when, Halts-option,
  weaken,
}
use usbmuxd_plugable_usb_msv.Client.Reply.{client_write, client_read}
use usbmuxd_plugable_usb_msv.Device.Packet.{send_tcp}
use usbmuxd_plugable_usb_msv.Device.Window.{flushed, sent_on, max_mux_packet_size}
use usbmuxd_plugable_usb_msv.Device.Teardown.{
  get_mux_connection, connection_teardown, update_connection, send_tcp_ack,
}
use usbmuxd_plugable_usb_msv.Device.Teardown.Search.{IsOf, get_mux_connection-Ends}
use usbmuxd_plugable_usb_msv.Device.Teardown.Halting.{connection_teardown-Halts}
use usbmuxd_plugable_usb_msv.Device.Input.Halting.{
  send_tcp-Halts, update_connection-Halts, send_tcp_ack-Halts,
}
use usbmuxd_plugable_usb_msv.Device.Input.{
  forward_input, process_input, process_output, device_client_process,
}

get_mux_connection-Halts : (id q : ℕ) → Halts (get_mux_connection id q)
get_mux_connection-Halts id q w =
    weaken (λ r v. (v ≡ w) × IsOf q w r) (get_mux_connection id q w)
      (get_mux_connection-Ends id q w)

module _ (host : Host) where
  client_read-Halts : (p len : ℕ) → Halts (client_read host p len)
  unfolding client_read
  client_read-Halts p len w = ground arith

  client_write-Halts : (p : ℕ) (buf : List ℕ) → Halts (client_write host p buf)
  unfolding client_write
  client_write-Halts p buf w = ground arith

  -- What `forward_input` does with what was read.
  forwarded-Halts :
      (conn : ℕ) (got : Option (List ℕ))
      → Halts (elim got as (λ _. M (Unit {0})) [
        | none ↦ connection_teardown host conn
        | some [] ↦ connection_teardown host conn
        | some (b ∷ bs) ↦ do
          res ← send_tcp host conn th_ack_flag (b ∷ bs)
          if is_neg res then connection_teardown host conn else (do
            c₁ ← load_conn conn
            put_conn conn (sent_on c₁ (length (b ∷ bs)))
            update_connection host conn)
      ])
  forwarded-Halts conn none w = connection_teardown-Halts host conn w
  forwarded-Halts conn (some []) w = connection_teardown-Halts host conn w
  forwarded-Halts conn (some (b ∷ bs)) w =
      Halts-bind (send_tcp host conn th_ack_flag (b ∷ bs)) _
        (send_tcp-Halts host conn th_ack_flag (b ∷ bs))
        (λ res. Halts-if (is_neg res) _ _ (connection_teardown-Halts host conn) (
          Halts-bind (load_conn conn) _ (Halts-load_conn conn) λ c₁.
            Halts-bind (put_conn conn (sent_on c₁ (length (b ∷ bs))))
              (λ _. update_connection host conn) (λ v. tt)
              (λ _. update_connection-Halts host conn)))
        w

  forward_input-Halts : (conn : ℕ) → Halts (forward_input host conn)
  unfolding forward_input
  forward_input-Halts conn = Halts-bind (load_conn conn) _ (Halts-load_conn conn) λ c.
      Halts-bind (require c.client) _ (Halts-require c.client) λ client.
        Halts-bind (client_read host client c.sendable) _ (client_read-Halts client c.sendable)
          λ got. forwarded-Halts conn got

  process_input-Halts : (conn : ℕ) (events : Events) → Halts (process_input host conn events)
  unfolding process_input
  process_input-Halts conn events = Halts-bind (load_conn conn) _ (Halts-load_conn conn) λ c.
      Halts-if (events.pollin && ltb 0 c.sendable) _ _ (forward_input-Halts conn)
        (update_connection-Halts host conn)

  process_output-Halts : (conn : ℕ) → Halts (process_output host conn)
  unfolding process_output
  process_output-Halts conn = Halts-bind (load_conn conn) _ (Halts-load_conn conn) λ c.
      Halts-bind (require c.client) _ (Halts-require c.client) λ client.
        Halts-bind (client_write host client (take c.ib_size c.ib_buf)) _
          (client_write-Halts client (take c.ib_size c.ib_buf))
          λ size.
            Halts-if (is_nonpos size) _ _
              (Halts-bind (connection_teardown host conn) (λ _. pure false)
                (connection_teardown-Halts host conn) (λ _. Halts-pure false))
              (Halts-bind (put_conn conn (flushed c (pos_part size))) _ (λ v. tt)
                λ _.
                  Halts-bind
                    (when (ltb c.tx_win max_mux_packet_size) (send_tcp_ack host conn >> pure tt))
                    (λ _. pure true)
                    (Halts-when (ltb c.tx_win max_mux_packet_size) _ (
                      Halts-bind (send_tcp_ack host conn) (λ _. pure tt)
                        (send_tcp_ack-Halts host conn) (λ _. Halts-pure tt)))
                    (λ _. Halts-pure true))

  -- `device_client_process` ends, whatever the sockets do and whatever the world is.
  pub device_client_process-Halts :
      (device_id client : ℕ) (events : Events)
      → Halts (device_client_process host device_id client events)
  unfolding device_client_process
  device_client_process-Halts device_id client events =
      Halts-bind (get_mux_connection device_id client) _ (get_mux_connection-Halts device_id client)
        λ found. Halts-option found _ _ (Halts-pure tt) λ conn.
          Halts-bind (load_conn conn) _ (Halts-load_conn conn) λ c.
            Halts-if (events.pollout && ltb 0 c.ib_size) _ _
              (Halts-bind (process_output host conn) _ (process_output-Halts conn)
                λ alive. Halts-if alive _ _ (process_input-Halts conn events) (Halts-pure tt))
              (process_input-Halts conn events)
