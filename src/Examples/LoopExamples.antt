-- ===== src/Examples/LoopExamples.antt =====
-- The theorems that operations end, and those about timers and the device list, at concrete worlds.
use usbmuxd_plugable_usb_msv.Prelude.{
  ℕ, ◌+◌, ◌≤◌, ◌<◌, ◌≡◌, ◌⊎◌, refl, List, [], ◌∷◌, ◌++◌, some, none, false, length, drop,
}
use usbmuxd_plugable_usb_msv.Collection
use usbmuxd_plugable_usb_msv.World.{World, DeviceInfo, usb_sent, update}
use usbmuxd_plugable_usb_msv.World.Step.{done, fault}
use usbmuxd_plugable_usb_msv.World.Step.Ends.{Ends}
use usbmuxd_plugable_usb_msv.Device.Teardown.{connection_teardown}
use usbmuxd_plugable_usb_msv.Device.Teardown.Halting.{connection_teardown-Halts}
use usbmuxd_plugable_usb_msv.Device.Ports.{in_use, ids_of, int_limit, search_id, get_next_device_id}
use usbmuxd_plugable_usb_msv.Device.Lifecycle.{
  device_get_list, device_get_count, device_add, new_device, version_request,
}
use usbmuxd_plugable_usb_msv.Device.Lifecycle.Listing.{
  device_get_list-count, device_add_lem, Requested,
}
use usbmuxd_plugable_usb_msv.Device.Remove.{device_shutdown}
use usbmuxd_plugable_usb_msv.Device.Remove.Shutdown.{device_shutdown-device_add}
use usbmuxd_plugable_usb_msv.Wire.{encode_version, encode_short_header, read_short_header}
use usbmuxd_plugable_usb_msv.Device.Packet.{
  send_packet, transmit, usb_send, sent_device, build_packet, numbered, header_length,
  mux_header_size,
}
use usbmuxd_plugable_usb_msv.Examples.{calm_host, phone, session, waiting, world_of}

abbrev established : World
established = world_of phone session waiting

connection_teardown-Halts_example :
    Ends (λ _ _. Unit {0}) (connection_teardown calm_host 20 established)
connection_teardown-Halts_example = connection_teardown-Halts calm_host 20 established

device_get_list-count_example :
    ((devs : List DeviceInfo) × (device_get_list calm_host false established
        ≡ done devs established)
      × (device_get_count false established ≡ done (length devs) established))
    ⊎ ((device_get_list calm_host false established ≡ fault)
        × (device_get_count false established ≡ fault))
device_get_list-count_example = device_get_list-count calm_host false established

device_add_lem_example :
    (id : ℕ) × (in_use id (1 ∷ []) ≡ false)
    × (((int_limit ≤ id + 1) × (device_add calm_host 8 established ≡ fault))
        ⊎ ((id + 1 < int_limit)
            × ((packet : List ℕ) × (read_short_header packet ≡ some (0, 20))
                × (drop 8 packet ≡ encode_version version_request ++ [])
                × Requested calm_host 8 id packet established)))
unfolding ids_of Collection.items Collection.taken
device_add_lem_example = device_add_lem calm_host 8 (1 ∷ []) established refl

-- A world in which no device is listed, and the one after `device_add`.
abbrev alone : World
alone = record established { device_list = record { list = none ∷ [] } }

abbrev requested : List ℕ
requested = 0 ∷ 0 ∷ 0 ∷ 0 ∷ 0 ∷ 0 ∷ 0 ∷ 20 ∷ 0 ∷ 0 ∷ 0 ∷ 1 ∷ 0 ∷ 0 ∷ 0 ∷ 0 ∷ 0 ∷ 0 ∷ 0 ∷ 0 ∷ []

abbrev one_added : World
one_added = record alone {
  devices = update (update alone.devices 40 (some (new_device 8 2))) 40 (some (new_device 8 2));
  device_list = record { list = some 40 ∷ [] };
  next_device_id = 3;
  next_address = 41;
  trace = usb_sent 8 requested ∷ [];
}

device_shutdown-device_add_example : device_shutdown calm_host one_added ≡ fault
unfolding device_add get_next_device_id ids_of search_id send_packet transmit usb_send sent_device
    build_packet numbered header_length mux_header_size new_device encode_version
    encode_short_header Collection.items Collection.taken Collection.add Collection.add_slot
device_shutdown-device_add_example =
    device_shutdown-device_add calm_host 8 alone one_added refl refl
