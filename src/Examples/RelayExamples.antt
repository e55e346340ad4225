-- ===== src/Examples/RelayExamples.antt =====
-- The theorem about what goes from a client to the device, at a host with bytes to read.
use usbmuxd_plugable_usb_msv.Prelude.{
  ℕ, ◌≤◌, ◌≡◌, ◌⊎◌, refl, List, [], ◌∷◌, some, true, false, arith, length, take, drop, length-take,
}
use usbmuxd_plugable_usb_msv.Collection
use usbmuxd_plugable_usb_msv.Wire.{read_tcp}
use usbmuxd_plugable_usb_msv.World.{World, MuxClient, client_connected}
use usbmuxd_plugable_usb_msv.World.Host.{Host}
use usbmuxd_plugable_usb_msv.World.Step.{done}
use usbmuxd_plugable_usb_msv.Device.Packet.{mux_header_size, tcp_header_of}
use usbmuxd_plugable_usb_msv.Device.Teardown.{
  connection_teardown, get_mux_connection, get_mux_device_for_id, find_device, find_conn_at,
  find_conn_of,
}
use usbmuxd_plugable_usb_msv.Device.Input.{device_client_process}
use usbmuxd_plugable_usb_msv.Device.Input.Forward.{
  IsLinked, after_forward, forwarded, after_taken, refreshed, device_client_process_lem,
}
use usbmuxd_plugable_usb_msv.Examples.{calm_host, phone, session, waiting, world_of}

two_at_most : (len : ℕ) (bs : List ℕ) → some (take len (9 ∷ 8 ∷ [])) ≡ some bs → length bs ≤ len
two_at_most len bs e = ground (arith, length-take {A = ℕ} len (9 ∷ 8 ∷ []))

-- A host with two bytes from each socket.
abbrev talking_host : Host
talking_host = record calm_host {
  recv = λ t fd len. some (take len (9 ∷ 8 ∷ []));
  recv_at_most = λ t fd len bs e. two_at_most len bs e;
}

abbrev linked : MuxClient
linked = record waiting { state = client_connected }

abbrev talking : World
talking = world_of phone session linked

talking-IsLinked : IsLinked 20 session phone 30 linked talking
talking-IsLinked = record {
  at_conn = refl;
  at_dev = refl;
  at_client = refl;
  owned = refl;
  connected = refl;
  fits = omega arith;
  bounded = omega arith;
}

device_client_process_lem_example :
    (packet : List ℕ) × (read_tcp (drop (mux_header_size 1) packet)
      ≡ some (tcp_header_of session 16, 9 ∷ 8 ∷ []))
    × (let process =
          device_client_process talking_host 1 30
            (record { pollin = true; pollout = false })
            talking in
        ((◌≡◌ false true)
          × (process
              ≡ connection_teardown talking_host 20 (
                  after_forward talking_host 20 session phone 30 linked talking talking-IsLinked
                    packet)))
        ⊎ ((◌≡◌ false false)
            × (process
                ≡ done tt (
                    refreshed talking_host 20
                      (forwarded talking_host 20 session phone 30 linked talking talking-IsLinked
                        packet 2)
                      30
                      linked
                      (after_taken talking_host 20 session phone 30 linked talking talking-IsLinked
                        packet 2)))))
unfolding get_mux_connection get_mux_device_for_id find_device find_conn_at find_conn_of
    Collection.items Collection.taken
device_client_process_lem_example =
    device_client_process_lem talking_host 20 session phone 30 linked talking talking-IsLinked 1
      (record { pollin = true; pollout = false }) 9 (8 ∷ []) refl refl refl (omega arith) refl
