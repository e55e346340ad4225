-- ===== src/Device/Mux.antt =====
-- device.cpp: `device_data_input`: transfers are put together to packets, and packets handed to the
-- version, control and TCP handlers. Reading past the bytes that were received is a fault.
pub mod Reassembly
pub mod Halting
use usbmuxd_plugable_usb_msv.Prelude.{
  ℕ, zero, suc, ◌+◌, ◌-◌, ◌%◌, ◌^◌, List, [], ◌∷◌, ◌++◌, Bool, true, false, ◌&&◌, ◌||◌, not, Option,
  none, some, ltb, ◌==◌, if◌then◌else◌, length, take, drop,
}
use usbmuxd_plugable_usb_msv.Collection
use usbmuxd_plugable_usb_msv.Wire.{
  read_short_header, read_header_rx_seq, read_version, VersionHeader, read_tcp, mux_proto_setup,
}
use usbmuxd_plugable_usb_msv.World.{
  MuxDevice, MuxDevState, muxdev_init, muxdev_active, DeviceInfo, preflight_started,
}
use usbmuxd_plugable_usb_msv.World.Host.{Host}
use usbmuxd_plugable_usb_msv.World.Step.{
  M, pure, ◌>>=◌, ◌>>◌, done, fault, exhausted, emit, get_world, require, when, load_device,
  put_device, free_device,
}
use usbmuxd_plugable_usb_msv.Device.Packet.{send_packet, mux_header_size}
use usbmuxd_plugable_usb_msv.Device.Input.{device_tcp_input}

-- `DEV_MRU`
abbrev pub dev_mru : ℕ
dev_mru = 65536

-- `USB_MRU`
abbrev pub usb_mru : ℕ
usb_mru = 16384

abbrev pub is_init : MuxDevState → Bool
is_init muxdev_init = true
is_init _ = false

-- What becomes of a transfer: it is kept for later or dropped, or it completes the bytes of a
-- packet, or its header cannot be read from what was received.
pub data Gathered : Type 0 where
  held : MuxDevice → Gathered
  ready : MuxDevice → List ℕ → Gathered
  short : Gathered

-- A transfer for a device that keeps an earlier part: `memcpy` behind it, and the test.
unfoldable pub gather_more : MuxDevice → List ℕ → Gathered
gather_more d buffer =
    let total = length buffer + d.pktlen in
    let joined = take d.pktlen d.pktbuf ++ buffer in
    if ltb dev_mru total
    then held (record d { pktlen = 0 })
    else if ltb (length buffer) usb_mru
    then ready (record d { pktbuf = joined; pktlen = 0 }) joined
    else elim (read_short_header joined) [
      | none ↦ short
      | some (_, len) ↦
          if len == total
          then ready (record d { pktbuf = joined; pktlen = 0 }) joined
          else held (record d { pktbuf = joined; pktlen = total })
    ]

-- A transfer for a device that keeps nothing.
unfoldable pub gather_first : MuxDevice → List ℕ → Gathered
gather_first d buffer =
    if length buffer == usb_mru
    then elim (read_short_header buffer) [
      | none ↦ short
      | some (_, len) ↦
          if ltb (length buffer) len
          then held (record d { pktbuf = buffer; pktlen = length buffer })
          else ready d buffer
    ]
    else ready d buffer

-- "handle broken up transfers"
unfoldable pub gather : MuxDevice → List ℕ → Gathered
gather d buffer = if d.pktlen == 0 then gather_first d buffer else gather_more d buffer

-- Does `strncpy(buf, src, n)` read past the end of `src`? It stops at a zero byte.
unfoldable pub strncpy_overreads : List ℕ → ℕ → Bool
strncpy_overreads src zero = false
strncpy_overreads [] (suc n) = true
strncpy_overreads (b ∷ src) (suc n) = not (b == 0) && strncpy_overreads src n

-- `device_control_input` only logs: what is left of it are its reads.
unfoldable pub device_control_input : List ℕ → ℕ → M (Unit {0})
device_control_input payload zero = pure tt
device_control_input [] (suc n) = λ w. fault
device_control_input (b ∷ rest) (suc n) =
    if (b == 3 || b == 7) && strncpy_overreads rest n then (λ w. fault) else pure tt

-- The first device of the list with this USB device.
unfoldable pub find_usbdev : List ℕ → ℕ → M (Option ℕ)
find_usbdev [] usbdev = pure none
find_usbdev (p ∷ ps) usbdev = do
  d ← load_device p
  if d.usbdev == usbdev then pure (some p) else find_usbdev ps usbdev

-- What `device_data_input` returns once the packet was handed on. A packet that is too small for
-- its protocol, or of an unknown one, uses up the whole buffer.
unfoldable pub used_up : ℕ → ℕ → ℕ → ℕ → ℕ
used_up protocol header len total =
    if protocol == 0 && ltb total (header + 12)
    then total
    else if protocol == 6 && ltb total (header + 20)
    then total
    else if protocol == 0 || protocol == 1 || protocol == 6
    then (if ltb len total then len else total)
    else total

module _ (host : Host) where
  unfoldable pub info_of : MuxDevice → DeviceInfo
  info_of d = record {
    id = d.id;
    serial = host.usb_serial d.usbdev;
    location = host.usb_location d.usbdev;
    pid = host.usb_pid d.usbdev;
  }

  -- The end of `device_version_input`: the device becomes active.
  unfoldable pub activate : ℕ → M (Unit {0})
  activate dev = do
    d ← load_device dev
    put_device dev (record d {
      state = muxdev_active;
      connections = some Collection.init;
      is_preflight_worker_running = true;
    })
    emit (preflight_started (info_of d))

  -- `device_version_input`
  unfoldable pub device_version_input : ℕ → VersionHeader → M (Unit {0})
  device_version_input dev vh = do
    d ← load_device dev
    if not (is_init d.state)
        then pure tt
        else if not (vh.major == 2 || vh.major == 1)
        then (do
          (λ w. done tt (record w { device_list = Collection.remove w.device_list dev }))
          free_device dev)
        else (do
          put_device dev (record d { version = vh.major })
          when (not (ltb vh.major 2)) (send_packet host dev mux_proto_setup [] (7 ∷ []) >> pure tt)
          activate dev)

  -- The TCP case of the `switch` in `device_data_input`.
  unfoldable pub tcp_packet : ℕ → ℕ → List ℕ → M (Unit {0})
  tcp_packet dev header buffer =
      if ltb (length buffer) (header + 20) then pure tt else elim (read_tcp (drop header buffer)) [
        | none ↦ (λ w. fault)
        | some (th, payload) ↦ device_tcp_input host dev th payload
      ]

  -- The version case.
  unfoldable pub version_packet : ℕ → ℕ → List ℕ → M (Unit {0})
  version_packet dev header buffer =
      if ltb (length buffer) (header + 12)
      then pure tt
      else elim (read_version (drop header buffer)) [
        | none ↦ (λ w. fault)
        | some vh ↦ device_version_input dev vh
      ]

  -- `dev->rx_seq = ntohs(mhdr->rx_seq)` for a device of version 2
  unfoldable pub note_rx_seq : ℕ → List ℕ → M (Unit {0})
  note_rx_seq dev buffer = do
    d ← load_device dev
    when (not (ltb d.version 2))
        (do seq ← require (read_header_rx_seq buffer); put_device dev (record d { rx_seq = seq }))

  -- The `switch`; the payload of a control packet is taken at `mhdr + 1`, that is 16 bytes on.
  unfoldable pub dispatch : ℕ → ℕ → ℕ → List ℕ → M (Unit {0})
  dispatch dev protocol header buffer =
      if protocol == 0
      then version_packet dev header buffer
      else if protocol == 1
      then device_control_input (drop 16 buffer) ((length buffer + 2 ^ 32 - header) % 2 ^ 32)
      else if protocol == 6
      then tcp_packet dev header buffer
      else pure tt

  -- `device_data_input` on the bytes of a packet.
  unfoldable pub packet_input : ℕ → List ℕ → M ℕ
  packet_input dev buffer = do
    (protocol, len) ← require (read_short_header buffer)
    if ltb (length buffer) len then pure (length buffer) else (do
      d ← load_device dev
      note_rx_seq dev buffer
      dispatch dev protocol (mux_header_size d.version) buffer
      pure (used_up protocol (mux_header_size d.version) len (length buffer)))

  -- `device_data_input` for a device that was found.
  unfoldable pub device_input : ℕ → List ℕ → M ℕ
  device_input dev buffer = do
    d ← load_device dev
    elim (gather d buffer) [
      | held d' ↦ (put_device dev d' >> pure (length buffer))
      | ready d' packet ↦ (put_device dev d' >> packet_input dev packet)
      | short ↦ (λ w. fault)
    ]

  -- `device_data_input`; its result is the number of bytes used up.
  unfoldable pub device_data_input : ℕ → List ℕ → M ℕ
  device_data_input usbdev buffer = do
    w ← get_world
    found ← find_usbdev (Collection.items w.device_list) usbdev
    elim found [
      | none ↦ pure (length buffer)
      | some dev ↦
          if length buffer == 0 || ltb dev_mru (length buffer)
          then pure (length buffer)
          else device_input dev buffer
    ]

  -- The loop of `device_process_sockets` over the bytes of one transfer.
  unfoldable pub process_transfer : ℕ → ℕ → List ℕ → M (Unit {0})
  process_transfer fuel usbdev [] w = done tt w
  process_transfer zero usbdev (b ∷ buffer) w = exhausted
  process_transfer (suc fuel) usbdev (b ∷ buffer) w =
      (do
        n ← device_data_input usbdev (b ∷ buffer)
        process_transfer fuel usbdev (drop n (b ∷ buffer)))
        w
