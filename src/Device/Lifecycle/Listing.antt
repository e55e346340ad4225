-- ===== src/Device/Lifecycle/Listing.antt =====
-- device.cpp: what `device_get_count` counts and `device_get_list` lists, and what `device_add` adds.
use usbmuxd_plugable_usb_msv.Prelude.{
  ℕ, suc, ◌+◌, ◌≤◌, ◌<◌, ◌≡◌, ◌≢◌, ◌⊎◌, inl, inr, refl, List, [], ◌∷◌, ◌++◌, Bool, true, false,
  Option, none, some, arith, length, drop, Bool-cases, Option-cases, pos, is_neg, if◌then◌else◌,
}
use usbmuxd_plugable_usb_msv.Collection
use usbmuxd_plugable_usb_msv.Wire.{
  VersionHeader, mux_proto_version, encode_version, read_short_header,
}
use usbmuxd_plugable_usb_msv.World.{World, MuxDevice, DeviceInfo, usb_sent, update}
use usbmuxd_plugable_usb_msv.World.Host.{Host}
use usbmuxd_plugable_usb_msv.World.Step.{done, fault}
use usbmuxd_plugable_usb_msv.Device.Packet.{
  send_packet, header_length, mux_header_size, sent_device, usb_mtu,
}
use usbmuxd_plugable_usb_msv.Device.Packet.Frame.{total_size, send_packet_lem}
use usbmuxd_plugable_usb_msv.Device.Mux.{info_of}
use usbmuxd_plugable_usb_msv.Device.Ports.{in_use, ids_of, int_limit, get_next_device_id}
use usbmuxd_plugable_usb_msv.Device.Ports.Search.{get_next_device_id_lem}
use usbmuxd_plugable_usb_msv.Device.Lifecycle.{
  is_listed, count_devices, device_get_count, list_devices, device_get_list, new_device,
  version_request, device_add,
}

module _ (host : Host) where
  count_devices-list :
      (hidden : Bool) (ps : List ℕ) (w : World)
      → ((devs : List DeviceInfo) × (list_devices host hidden ps w ≡ done devs w)
          × (count_devices hidden ps w ≡ done (length devs) w))
        ⊎ ((list_devices host hidden ps w ≡ fault) × (count_devices hidden ps w ≡ fault))
  unfolding list_devices count_devices
  count_devices-list hidden [] w = inl ([], refl, refl)
  count_devices-list hidden (p ∷ ps) w = elim (Option-cases (w.devices p)) [
    | inl e ↦ inr (ground (arith, e), ground (arith, e))
    | inr (d, e) ↦ elim (count_devices-list hidden ps w) [
      | inr both ↦ inr (ground (arith, e, both.0), ground (arith, e, both.1))
      | inl (devs, listed, counted) ↦ elim (Bool-cases (is_listed hidden d)) [
        | inl in_list ↦ inl (
          info_of host d ∷ devs,
          ground (arith, e, listed, in_list),
          ground (arith, e, counted, in_list),
        )
        | inr left_out ↦
            inl (devs, ground (arith, e, listed, left_out), ground (arith, e, counted, left_out))
      ]
    ]
  ]

  -- `device_get_list` fills in as many entries as `device_get_count` counts, and neither changes
  -- anything; or both come to the same fault.
  pub device_get_list-count :
      (hidden : Bool) (w : World)
      → ((devs : List DeviceInfo) × (device_get_list host hidden w ≡ done devs w)
          × (device_get_count hidden w ≡ done (length devs) w))
        ⊎ ((device_get_list host hidden w ≡ fault) × (device_get_count hidden w ≡ fault))
  unfolding device_get_list device_get_count Collection.copy
  device_get_list-count hidden w = count_devices-list hidden (Collection.items w.device_list) w

  -- The table of devices that differs from the old one at the address of the new device alone.
  abbrev pub DiffersAt : ℕ → Option MuxDevice → (ℕ → Option MuxDevice) → World → Type 0
  DiffersAt dev slot devices w =
      (devices dev ≡ slot) × ((q : ℕ) → q ≢ dev → devices q ≡ w.devices q)

  -- The world after a version request, with these devices and this list of them.
  abbrev pub after_request :
      ℕ → ℕ → List ℕ → (ℕ → Option MuxDevice) → Collection.Collection → World → World
  after_request usbdev id packet devices col w = record w {
    devices = devices;
    device_list = col;
    next_device_id = id + 1;
    next_address = suc w.next_address;
    trace = usb_sent usbdev packet ∷ w.trace;
  }

  -- What `device_add` does, for the answer of the USB stack to the packet.
  abbrev pub Requested : ℕ → ℕ → List ℕ → World → Type 0
  Requested usbdev id packet w =
      let res = host.usb_send w.trace usbdev packet in
      (devices : ℕ → Option MuxDevice) × (((is_neg res ≡ true)
          × DiffersAt w.next_address none devices w
          × (device_add host usbdev w
              ≡ done res (after_request usbdev id packet devices w.device_list w)))
        ⊎ ((is_neg res ≡ false)
            × DiffersAt w.next_address (some (new_device usbdev id)) devices w
            × (device_add host usbdev w
                ≡ done (pos 0) (
                    after_request usbdev id packet devices
                      (Collection.add w.device_list w.next_address) w))))

  version_length :
      (h : VersionHeader) → header_length mux_proto_version ≡ some (length (encode_version h))
  unfolding header_length encode_version
  version_length h = refl

  version_size : (d : MuxDevice) (h : VersionHeader) → total_size d (encode_version h) [] ≤ usb_mtu
  unfolding mux_header_size encode_version
  version_size d h = ground arith

  -- `device_add` behind its id.
  device_add-Requested :
      (usbdev id : ℕ) (packet : List ℕ) (w : World)
      → id + 1 < int_limit
      → get_next_device_id w ≡ done id (record w { next_device_id = id + 1 })
      → let v = record w {
        devices = update w.devices w.next_address (some (new_device usbdev id));
        next_device_id = id + 1;
        next_address = suc w.next_address;
      } in
        send_packet host w.next_address mux_proto_version (encode_version version_request) [] v
          ≡ done
              (let res = host.usb_send w.trace usbdev packet in if is_neg res then res else pos 20)
              (record v {
                devices =
                    update v.devices w.next_address
                      (some (sent_device (new_device usbdev id) mux_proto_version));
                trace = usb_sent usbdev packet ∷ w.trace;
              })
        → Requested usbdev id packet w
  unfolding device_add sent_device new_device
  device_add-Requested usbdev id packet w room got sent =
      elim (Bool-cases (is_neg (host.usb_send w.trace usbdev packet))) [
        | inl failed ↦ (
          update
              (update (update w.devices w.next_address (some (new_device usbdev id))) w.next_address
                (some (new_device usbdev id)))
              w.next_address none,
          inl (failed, (ground arith, λ q ne. ground arith), ground (arith, got, sent, failed)),
        )
        | inr went ↦ (
          update (update w.devices w.next_address (some (new_device usbdev id))) w.next_address
              (some (new_device usbdev id)),
          inr (went, (ground arith, λ q ne. ground arith), ground (arith, got, sent, went)),
        )
      ]

  -- `device_add`, with the ids of the listed devices: it takes an id that no listed device has, and
  -- comes to a fault only if there is no next `int`. Otherwise it sends the version request, once;
  -- if the USB stack refuses it, its error is returned, the new device is freed and the list is as
  -- it was; if not, 0 is returned and the new device joins the list, invisible and in state INIT.
  -- No other device is touched.
  pub device_add_lem :
      (usbdev : ℕ) (ids : List ℕ) (w : World)
      → ids_of (Collection.items w.device_list) w ≡ done ids w
      → (id : ℕ) × (in_use id ids ≡ false)
        × (((int_limit ≤ id + 1) × (device_add host usbdev w ≡ fault))
            ⊎ ((id + 1 < int_limit)
                × ((packet : List ℕ) × (read_short_header packet ≡ some (0, 20))
                    × (drop 8 packet ≡ encode_version version_request ++ [])
                    × Requested usbdev id packet w)))
  unfolding device_add mux_header_size new_device encode_version
  device_add_lem usbdev ids w loaded =
      let (id, unused, _, _, _, ends) = get_next_device_id_lem ids w loaded in
      (
        id,
        unused,
        elim ends [
          | inr (full, overflow) ↦ inl (full, ground (arith, overflow))
          | inl (room, got) ↦
              let d = new_device usbdev id in
              let v = record w {
                devices = update w.devices w.next_address (some d);
                next_device_id = id + 1;
                next_address = suc w.next_address;
              } in
              elim (send_packet_lem host w.next_address d v (ground arith) mux_proto_version
                (encode_version version_request) [] (version_length version_request)) [
                  | inl (_, (packet, sent, _, header, behind)) ↦ inr (
                    room,
                    (packet, header, behind, device_add-Requested usbdev id packet w room got sent),
                  )
                  | inr (large, _) ↦ absurd (omega (arith, version_size d version_request))
                ]
        ],
      )
