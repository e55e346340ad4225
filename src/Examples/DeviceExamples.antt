-- ===== src/Examples/DeviceExamples.antt =====
-- The theorems about device.cpp at concrete worlds.
use usbmuxd_plugable_usb_msv.Prelude.{
  true, ◌<◌, negsuc, ◌⊎◌, ℕ, ◌+◌, ◌%◌, ◌^◌, ◌≤◌, ◌≡◌, refl, List, [], ◌∷◌, ◌++◌, none, some, false,
  arith, length, drop, pos,
}
use usbmuxd_plugable_usb_msv.Collection
use usbmuxd_plugable_usb_msv.Wire.{
  mux_proto_tcp, read_short_header, encode_tcp, TcpHeader, read_tcp,
}
use usbmuxd_plugable_usb_msv.Wire.RoundTrip.{read_tcp-encode_tcp, FitsTcp}
use usbmuxd_plugable_usb_msv.World.{
  World, MuxDevice, MuxConnection, client_connecting2, client_dead, update, clock_read,
}
use usbmuxd_plugable_usb_msv.World.Step.{done, fault, exhausted}
use usbmuxd_plugable_usb_msv.World.Step.Ends.{Ends}
use usbmuxd_plugable_usb_msv.Device.Packet.{
  header_length, mux_header_size, send_packet, send_tcp, tcp_header_of,
}
use usbmuxd_plugable_usb_msv.Device.Packet.Frame.{
  send_packet_lem, send_tcp_lem, after_packet, FitsConn, acked,
}
use usbmuxd_plugable_usb_msv.Device.Window.{refresh, take_in, flushed, overflows}
use usbmuxd_plugable_usb_msv.Device.Window.Flow.{
  InWindow, live, take_in_lem, flushed_lem, refresh_lem,
}
use usbmuxd_plugable_usb_msv.Device.Ports.{
  in_use, search_sport, sports_of, find_sport, ids_of, int_limit, get_next_device_id,
}
use usbmuxd_plugable_usb_msv.Device.Ports.Search.{
  Finds, search_sport_total, find_sport_lem, get_next_device_id_lem,
}
use usbmuxd_plugable_usb_msv.Device.Mux.{
  gather, find_usbdev, device_control_input, process_transfer,
}
use usbmuxd_plugable_usb_msv.Device.Mux.Reassembly.{
  Reassembles, gather_lem, IsStuck, process_transfer_stuck,
}
use usbmuxd_plugable_usb_msv.Device.Teardown.{
  get_mux_connection, get_mux_device_for_id, find_device, find_conn_at, find_conn_of, client_close,
}
use usbmuxd_plugable_usb_msv.Device.Teardown.Close.{client_close-Ends}
use usbmuxd_plugable_usb_msv.Device.Teardown.DoubleClose.{client_close_twice}
use usbmuxd_plugable_usb_msv.Examples.{calm_host, phone, session, waiting, world_of}

session-InWindow : InWindow session
session-InWindow = omega arith

refresh_lem_example : (refresh session).sendable ≤ 32728
refresh_lem_example = (refresh_lem session).0

take_in_lem_example :
    (◌<◌ 262139 2 × (overflows session 2 ≡ true))
    ⊎ ((2 ≤ 262139)
        × (overflows session 2 ≡ false)
        × InWindow (take_in session (6 ∷ 7 ∷ []))
        × (live (take_in session (6 ∷ 7 ∷ [])) ≡ live session ++ (6 ∷ 7 ∷ [])))
unfolding overflows
take_in_lem_example = take_in_lem session (6 ∷ 7 ∷ []) session-InWindow (omega arith)

flushed_lem_example : live (flushed session 3) ≡ 4 ∷ 5 ∷ []
flushed_lem_example = (flushed_lem session 3 session-InWindow (omega arith)).1

abbrev established : World
established = world_of phone session waiting

tcp_header_length : header_length mux_proto_tcp ≡ some 20
unfolding header_length
tcp_header_length = refl

send_packet_lem_example :
    ((30 ≤ 49152)
      × ((packet : List ℕ) × (send_packet calm_host 10 mux_proto_tcp
              (encode_tcp (tcp_header_of session 16))
              (1 ∷ 2 ∷ [])
              established
            ≡ done (pos 30) (after_packet calm_host 10 phone established refl mux_proto_tcp packet))
          × (length packet ≡ 30)
          × (read_short_header packet ≡ some (6, 30))
          × (drop 8 packet ≡ encode_tcp (tcp_header_of session 16) ++ (1 ∷ 2 ∷ []))))
    ⊎ ((49152 < 30)
        × (send_packet calm_host 10 mux_proto_tcp
              (encode_tcp (tcp_header_of session 16))
              (1 ∷ 2 ∷ [])
              established
            ≡ done (negsuc 0) established))
unfolding encode_tcp mux_header_size
send_packet_lem_example =
    send_packet_lem calm_host 10 phone established refl mux_proto_tcp
      (encode_tcp (tcp_header_of session 16)) (1 ∷ 2 ∷ []) tcp_header_length

session-FitsConn : FitsConn session
session-FitsConn = omega arith

send_tcp_lem_example :
    (packet : List ℕ) × (send_tcp calm_host 20 16 (1 ∷ 2 ∷ []) established ≡ (
      let v = after_packet calm_host 10 phone established refl mux_proto_tcp packet in
      done (pos (length packet)) (record v {
        conns = update established.conns 20 (some (acked session 1000));
        trace = clock_read ∷ v.trace;
      })))
    × (read_tcp (drop 8 packet)
        ≡ some (
          record {
            th_sport = 1;
            th_dport = 62078;
            th_seq = 100;
            th_ack = 50;
            th_x2 = 0;
            th_off = 5;
            th_flags = 16;
            th_win = 1023;
            th_sum = 0;
            th_urp = 0;
          },
          1 ∷ 2 ∷ [],
        ))
unfolding mux_header_size
send_tcp_lem_example =
    send_tcp_lem calm_host 20 session phone established refl refl 16 (1 ∷ 2 ∷ []) session-FitsConn
      (omega arith) (omega arith)

abbrev plain_header : TcpHeader
plain_header = record {
  th_sport = 1;
  th_dport = 62078;
  th_seq = 100;
  th_ack = 50;
  th_x2 = 0;
  th_off = 5;
  th_flags = 16;
  th_win = 512;
  th_sum = 0;
  th_urp = 0;
}

plain_header-FitsTcp : FitsTcp plain_header
plain_header-FitsTcp = omega arith

read_tcp-encode_tcp_example :
    read_tcp (encode_tcp plain_header ++ (9 ∷ [])) ≡ some (plain_header, 9 ∷ [])
read_tcp-encode_tcp_example = read_tcp-encode_tcp plain_header (9 ∷ []) plain_header-FitsTcp

search_sport_total_example : Finds (search_sport 4 (1 ∷ 2 ∷ 65535 ∷ []) 65535) (1 ∷ 2 ∷ 65535 ∷ [])
search_sport_total_example =
    search_sport_total 4 (1 ∷ 2 ∷ 65535 ∷ []) 65535 (omega arith) (omega arith) (omega arith)

find_sport_lem_example :
    ((65535 ≤ 1) × (find_sport 10 established ≡ done 0 established))
    ⊎ ((1 < 65535)
        × ((sport : ℕ) × (find_sport 10 established
              ≡ done sport (record established {
                devices =
                    update established.devices 10
                      (some (record phone { next_sport = (sport + 1) % 2 ^ 16 }));
              }))
            × (in_use sport (1 ∷ []) ≡ false)))
unfolding sports_of Collection.items Collection.taken Collection.count Collection.count_slots
find_sport_lem_example =
    find_sport_lem 10 phone (record { list = some 20 ∷ none ∷ [] }) (1 ∷ []) established refl refl
      (omega arith) refl

get_next_device_id_lem_example :
    (id : ℕ) × (in_use id (1 ∷ []) ≡ false)
    × (2 ≤ id)
    × (id ≤ 3)
    × ((j : ℕ) → 2 ≤ j → j < id → in_use j (1 ∷ []) ≡ true)
    × (((id + 1 < int_limit)
          × (get_next_device_id established
              ≡ done id (record established { next_device_id = id + 1 })))
        ⊎ ((int_limit ≤ id + 1) × (get_next_device_id established ≡ fault)))
unfolding ids_of Collection.items Collection.taken
get_next_device_id_lem_example = get_next_device_id_lem (1 ∷ []) established refl

gather_lem_example : Reassembles phone (0 ∷ 0 ∷ []) (gather phone (0 ∷ 0 ∷ []))
gather_lem_example = gather_lem phone (0 ∷ 0 ∷ []) (omega arith) (omega arith)

-- The header of a control packet whose length is zero.
abbrev empty_control_packet : List ℕ
empty_control_packet = 0 ∷ 0 ∷ 0 ∷ 1 ∷ 0 ∷ 0 ∷ 0 ∷ 0 ∷ []

phone-IsStuck : IsStuck 10 phone 7 empty_control_packet (world_of phone session waiting)
unfolding find_usbdev Collection.items Collection.taken read_short_header device_control_input
phone-IsStuck = record {
  listed = refl;
  found = refl;
  nothing_kept = refl;
  old_version = omega arith;
  some_bytes = omega arith;
  short_transfer = omega arith;
  empty_control = refl;
  harmless = refl;
}

process_transfer_stuck_example :
    process_transfer calm_host 1000 7 empty_control_packet (world_of phone session waiting)
    ≡ exhausted
process_transfer_stuck_example =
    process_transfer_stuck calm_host 10 phone 7 empty_control_packet
      (world_of phone session waiting) phone-IsStuck 1000

client_close-Ends_example :
    Ends (λ _ v. v.clients 30 ≡ none) (client_close calm_host 30 (world_of phone session waiting))
client_close-Ends_example = client_close-Ends calm_host 30 (world_of phone session waiting)

-- The client was told that its connection stands.
abbrev answered : usbmuxd_plugable_usb_msv.World.MuxClient
answered = record waiting { state = client_connecting2 }

client_close_twice_example : client_close calm_host 30 (world_of phone session answered) ≡ fault
unfolding get_mux_connection get_mux_device_for_id find_device find_conn_at find_conn_of
    Collection.items Collection.taken
client_close_twice_example =
    client_close_twice calm_host 30 20 answered session (world_of phone session answered) refl refl
      refl refl refl refl
