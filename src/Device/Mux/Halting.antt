-- ===== src/Device/Mux/Halting.antt =====
-- device.cpp: `device_data_input` ends.
use usbmuxd_plugable_usb_msv.Prelude.{
  ℕ, zero, suc, ◌+◌, List, [], ◌∷◌, ◌&&◌, ◌||◌, not, Option, none, some, arith, ltb, ◌==◌, length,
  drop,
}
use usbmuxd_plugable_usb_msv.Collection
use usbmuxd_plugable_usb_msv.Wire.{
  read_short_header, read_version, VersionHeader, read_tcp, mux_proto_setup,
}
use usbmuxd_plugable_usb_msv.World.Host.{Host}
use usbmuxd_plugable_usb_msv.World.Step.{
  M, pure, ◌>>◌, require, when, load_device, put_device, free_device, get_world, fault,
}
use usbmuxd_plugable_usb_msv.World.Step.Ends.{
  Halts, Halts-bind, Halts-if, Halts-pure, Halts-require, Halts-load_device, Halts-when,
  Halts-option,
}
use usbmuxd_plugable_usb_msv.Device.Packet.{send_packet, mux_header_size}
use usbmuxd_plugable_usb_msv.Device.Input.Halting.{send_packet-Halts, device_tcp_input-Halts}
use usbmuxd_plugable_usb_msv.Device.Mux.{
  dev_mru, is_init, Gathered, held, ready, short, gather, strncpy_overreads, device_control_input,
  find_usbdev, used_up, activate, device_version_input, tcp_packet, version_packet, note_rx_seq,
  dispatch, packet_input, device_input, device_data_input,
}

find_usbdev-Halts : (ps : List ℕ) (usbdev : ℕ) → Halts (find_usbdev ps usbdev)
unfolding find_usbdev
find_usbdev-Halts [] usbdev = Halts-pure {A = Option ℕ} none
find_usbdev-Halts (p ∷ ps) usbdev =
    Halts-bind (load_device p) _ (Halts-load_device p)
      λ d. Halts-if (d.usbdev == usbdev) _ _ (Halts-pure (some p)) (find_usbdev-Halts ps usbdev)

device_control_input-Halts : (payload : List ℕ) (n : ℕ) → Halts (device_control_input payload n)
unfolding device_control_input
device_control_input-Halts payload zero = Halts-pure tt
device_control_input-Halts [] (suc n) = λ w. tt
device_control_input-Halts (b ∷ rest) (suc n) =
    Halts-if ((b == 3 || b == 7) && strncpy_overreads rest n) _ _ (λ w. tt) (Halts-pure tt)

free_device-Halts : (dev : ℕ) → Halts (free_device dev)
free_device-Halts dev = Halts-bind (load_device dev) _ (Halts-load_device dev) (λ _ w. tt)

note_rx_seq-Halts : (host : Host) (dev : ℕ) (buffer : List ℕ) → Halts (note_rx_seq host dev buffer)
unfolding note_rx_seq
note_rx_seq-Halts host dev buffer w = ground arith

module _ (host : Host) where
  activate-Halts : (dev : ℕ) → Halts (activate host dev)
  unfolding activate
  activate-Halts dev w = ground arith

  device_version_input-Halts :
      (dev : ℕ) (vh : VersionHeader) → Halts (device_version_input host dev vh)
  unfolding device_version_input
  device_version_input-Halts dev vh = Halts-bind (load_device dev) _ (Halts-load_device dev) λ d.
      Halts-if (not (is_init d.state)) _ _ (Halts-pure tt) (
        Halts-if (not (vh.major == 2 || vh.major == 1)) _ _
          (λ w.
            free_device-Halts dev (record w { device_list = Collection.remove w.device_list dev }))
          (Halts-bind (put_device dev (record d { version = vh.major })) _ (λ w. tt)
            λ _.
              Halts-bind
                (when (not (ltb vh.major 2))
                  (send_packet host dev mux_proto_setup [] (7 ∷ []) >> pure tt))
                (λ _. activate host dev)
                (Halts-when (not (ltb vh.major 2)) _ (
                  Halts-bind (send_packet host dev mux_proto_setup [] (7 ∷ [])) (λ _. pure tt)
                    (send_packet-Halts host dev mux_proto_setup [] (7 ∷ [])) (λ _. Halts-pure tt)))
                (λ _. activate-Halts dev)))

  dispatch-Halts :
      (dev protocol header : ℕ) (buffer : List ℕ) → Halts (dispatch host dev protocol header buffer)
  unfolding dispatch version_packet tcp_packet
  dispatch-Halts dev protocol header buffer =
      Halts-if (protocol == 0) _ _
        (Halts-if (ltb (length buffer) (header + 12)) _ _ (Halts-pure tt) (
          Halts-option (read_version (drop header buffer)) _ _ (λ w. tt)
            (device_version_input-Halts dev)))
        (Halts-if (protocol == 1) _ _ (device_control_input-Halts (drop 16 buffer) _) (
          Halts-if (protocol == 6) _ _
            (Halts-if (ltb (length buffer) (header + 20)) _ _ (Halts-pure tt) (
              Halts-option (read_tcp (drop header buffer)) _ _ (λ w. tt)
                (λ r. device_tcp_input-Halts host dev r.0 r.1)))
            (Halts-pure tt)))

  packet_input-Halts : (dev : ℕ) (buffer : List ℕ) → Halts (packet_input host dev buffer)
  unfolding packet_input
  packet_input-Halts dev buffer =
      Halts-bind (require (read_short_header buffer)) _ (Halts-require (read_short_header buffer))
        λ hd. Halts-if (ltb (length buffer) hd.1) _ _ (Halts-pure (length buffer)) (
          Halts-bind (load_device dev) _ (Halts-load_device dev) λ d.
            Halts-bind (note_rx_seq host dev buffer) _ (note_rx_seq-Halts host dev buffer) λ _.
              Halts-bind (dispatch host dev hd.0 (mux_header_size d.version) buffer)
                (λ _. pure (used_up hd.0 (mux_header_size d.version) hd.1 (length buffer)))
                (dispatch-Halts dev hd.0 (mux_header_size d.version) buffer)
                (λ _. Halts-pure (used_up hd.0 (mux_header_size d.version) hd.1 (length buffer))))

  gathered-Halts :
      (dev : ℕ) (buffer : List ℕ) (g : Gathered)
      → Halts (elim g as (λ _. M ℕ) [
        | held d' ↦ (put_device dev d' >> pure (length buffer))
        | ready d' packet ↦ (put_device dev d' >> packet_input host dev packet)
        | short ↦ (λ w. fault)
      ])
  gathered-Halts dev buffer (held d') w = tt
  gathered-Halts dev buffer (ready d' packet) w = packet_input-Halts dev packet _
  gathered-Halts dev buffer short w = tt

  device_input-Halts : (dev : ℕ) (buffer : List ℕ) → Halts (device_input host dev buffer)
  unfolding device_input
  device_input-Halts dev buffer =
      Halts-bind (load_device dev) _ (Halts-load_device dev)
        λ d. gathered-Halts dev buffer (gather d buffer)

  -- `device_data_input` ends, whatever the device sends and whatever the world is.
  pub device_data_input-Halts :
      (usbdev : ℕ) (buffer : List ℕ) → Halts (device_data_input host usbdev buffer)
  unfolding device_data_input
  device_data_input-Halts usbdev buffer =
      Halts-bind get_world _ (λ w. tt)
        λ w.
          Halts-bind (find_usbdev (Collection.items w.device_list) usbdev) _
            (find_usbdev-Halts (Collection.items w.device_list) usbdev)
            λ found. Halts-option found _ _ (Halts-pure (length buffer)) λ dev.
              Halts-if (length buffer == 0 || ltb dev_mru (length buffer)) _ _
                (Halts-pure (length buffer)) (device_input-Halts dev buffer)
