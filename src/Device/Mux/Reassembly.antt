-- ===== src/Device/Mux/Reassembly.antt =====
-- device.cpp: how `device_data_input` puts transfers together, and a packet that stops its caller.
use mathlib.Core.Path.{fun_ext}
use usbmuxd_plugable_usb_msv.Prelude.{
  ℕ, zero, suc, ◌+◌, ◌-◌, ◌%◌, ◌^◌, ◌≤◌, ◌<◌, ◌≡◌, ◌⊎◌, inl, inr, refl, ap, List, [], ◌∷◌, ◌++◌,
  false, Option, some, arith, ltb, ◌==◌, length, take, drop, length-append, length-take, take_all,
  Bool-cases,
}
use usbmuxd_plugable_usb_msv.Collection
use usbmuxd_plugable_usb_msv.Wire.{read_short_header, read_be32}
use usbmuxd_plugable_usb_msv.World.{World, MuxDevice, update}
use usbmuxd_plugable_usb_msv.World.Host.{Host}
use usbmuxd_plugable_usb_msv.World.Step.{done, exhausted}
use usbmuxd_plugable_usb_msv.Device.Packet.{mux_header_size}
use usbmuxd_plugable_usb_msv.Device.Mux.{
  dev_mru, usb_mru, Gathered, held, ready, short, gather_more, gather_first, gather,
  device_control_input, find_usbdev, used_up, note_rx_seq, dispatch, packet_input, device_input,
  device_data_input, process_transfer,
}

-- The bytes that a device keeps of earlier transfers.
abbrev pub pending : MuxDevice → List ℕ
pending d = take d.pktlen d.pktbuf

-- What is kept is there, and fits the packet buffer.
pub record Keeps (d : MuxDevice) : Type 0 where
  pub stored : d.pktlen ≤ length d.pktbuf
  pub within : d.pktlen ≤ dev_mru

-- A transfer is kept behind what was kept, or all is dropped for being too long, or the packet is
-- all that came since the last one.
abbrev pub Reassembles : MuxDevice → List ℕ → Gathered → Type 0
Reassembles d buffer (held d') =
    Keeps d'
    × ((pending d' ≡ pending d ++ buffer)
        ⊎ ((d'.pktlen ≡ 0) × (dev_mru < d.pktlen + length buffer)))
Reassembles d buffer (ready d' packet) =
    Keeps d' × (d'.pktlen ≡ 0) × (packet ≡ pending d ++ buffer) × (length packet ≤ dev_mru)
Reassembles d buffer short = ⊥

read_short_header_total :
    (bs : List ℕ) → 8 ≤ length bs → (h : ℕ × ℕ) × (read_short_header bs ≡ some h)
unfolding read_short_header read_be32
read_short_header_total (a ∷ b ∷ c ∷ d ∷ e ∷ f ∷ g ∷ h ∷ rest) p = (_, refl)
read_short_header_total [] p = absurd (omega arith)
read_short_header_total (a ∷ []) p = absurd (omega arith)
read_short_header_total (a ∷ b ∷ []) p = absurd (omega arith)
read_short_header_total (a ∷ b ∷ c ∷ []) p = absurd (omega arith)
read_short_header_total (a ∷ b ∷ c ∷ d ∷ []) p = absurd (omega arith)
read_short_header_total (a ∷ b ∷ c ∷ d ∷ e ∷ []) p = absurd (omega arith)
read_short_header_total (a ∷ b ∷ c ∷ d ∷ e ∷ f ∷ []) p = absurd (omega arith)
read_short_header_total (a ∷ b ∷ c ∷ d ∷ e ∷ f ∷ g ∷ []) p = absurd (omega arith)

length-pending : (d : MuxDevice) → Keeps d → length (pending d) ≡ d.pktlen
length-pending d k = omega (arith, length-take d.pktlen d.pktbuf, k.stored)

whole_packet :
    (d : MuxDevice) (buffer : List ℕ)
    → Keeps d
    → d.pktlen ≡ 0
    → length buffer ≤ dev_mru
    → Reassembles d buffer (ready d buffer)
whole_packet d buffer k z h = (k, z, rw z, h)

gather_first-Reassembles :
    (d : MuxDevice) (buffer : List ℕ)
    → Keeps d
    → d.pktlen ≡ 0
    → length buffer ≤ dev_mru
    → Reassembles d buffer (gather_first d buffer)
unfolding gather_first
gather_first-Reassembles d buffer k z h = elim (Bool-cases (length buffer == usb_mru)) [
  | inl full ↦
      let (hd, e) = read_short_header_total buffer (ground arith) in
      elim (Bool-cases (ltb (length buffer) hd.1)) [
        | inl more ↦
            rw (full, e, more)
              (record { stored = omega arith; within = h }, inl (rw z (take_all buffer _ refl)))
        | inr enough ↦ rw (full, e, enough) (whole_packet d buffer k z h)
      ]
  | inr other ↦ rw other (whole_packet d buffer k z h)
]

gather_more-Reassembles :
    (d : MuxDevice) (buffer : List ℕ)
    → Keeps d
    → length buffer ≤ dev_mru
    → Reassembles d buffer (gather_more d buffer)
unfolding gather_more
gather_more-Reassembles d buffer k h = elim (Bool-cases (ltb dev_mru (length buffer + d.pktlen))) [
  | inl large ↦
      rw large (record { stored = omega arith; within = omega arith }, inr (refl, ground arith))
  | inr fits ↦ elim (Bool-cases (ltb (length buffer) usb_mru)) [
    | inl last ↦ rw (fits, last) (packet fits)
    | inr full ↦
        let (hd, e) = read_short_header_total (pending d ++ buffer) (ground (arith, size)) in
        elim (Bool-cases (hd.1 == length buffer + d.pktlen)) [
          | inl complete ↦ rw (fits, full, e, complete) (packet fits)
          | inr partial ↦
              rw (fits, full, e, partial)
                (
                  record { stored = ground (arith, size); within = ground arith },
                  inl (take_all _ _ (ground (arith, size))),
                )
        ]
  ]
]
  where
    size : length (pending d ++ buffer) ≡ length buffer + d.pktlen
    size = omega (arith, length-append (pending d) buffer, length-pending d k)

    packet :
        ltb dev_mru (length buffer + d.pktlen) ≡ false
        → Reassembles d buffer
            (ready (record d { pktbuf = pending d ++ buffer; pktlen = 0 }) (pending d ++ buffer))
    packet fits =
        (record { stored = omega arith; within = omega arith }, refl, refl, ground (arith, size))

-- Transfers of at most 65536 bytes are put together without loss: none is ever read past its end,
-- what is handed on as a packet is exactly the bytes since the last packet, at most 65536 of them,
-- and all of them are kept otherwise, unless they are more than that.
pub gather_lem :
    (d : MuxDevice) (buffer : List ℕ)
    → Keeps d
    → length buffer ≤ dev_mru
    → Reassembles d buffer (gather d buffer)
unfolding gather
gather_lem d buffer k h = elim (Bool-cases (d.pktlen == 0)) [
  | inl empty ↦ rw (empty, gather) (gather_first-Reassembles d buffer k (ground arith) h)
  | inr more ↦ rw (more, gather) (gather_more-Reassembles d buffer k h)
]

-- What `device_data_input` says it used up is never more than the packet buffer held; it is nothing
-- only for a packet whose own length is zero.
used_up_bounds :
    (protocol header len total : ℕ)
    → 0 < total
    → (used_up protocol header len total ≤ total)
      × ((0 < used_up protocol header len total) ⊎ (len ≡ 0))
unfolding used_up
used_up_bounds protocol header len total h = elim (Bool-cases (len == 0)) [
  | inl empty ↦ (ground arith, inr (ground arith))
  | inr other ↦ (ground arith, inl (ground arith))
]

update_same :
    (f : ℕ → Option MuxDevice) (p : ℕ) (d : MuxDevice) → f p ≡ some d → update f p (some d) ≡ f
update_same f p d e = fun_ext λ q. ground (arith, e)

-- A control packet of length zero from a device below version 2.
pub record IsStuck (dev : ℕ) (d : MuxDevice) (usbdev : ℕ) (buffer : List ℕ) (w : World)
    : Type 0 where
  pub listed : find_usbdev (Collection.items w.device_list) usbdev w ≡ done (some dev) w
  pub found : w.devices dev ≡ some d
  pub nothing_kept : d.pktlen ≡ 0
  pub old_version : d.version < 2
  pub some_bytes : 0 < length buffer
  pub short_transfer : length buffer < usb_mru
  pub empty_control : read_short_header buffer ≡ some (1, 0)
  pub harmless :
      device_control_input (drop 16 buffer) ((length buffer + 2 ^ 32 - 8) % 2 ^ 32) w ≡ done tt w

module _ (host : Host) (dev : ℕ) (d : MuxDevice) (usbdev : ℕ) (buffer : List ℕ) (w : World)
    (stuck : IsStuck dev d usbdev buffer w) where
  unchanged : record w { devices = update w.devices dev (some d) } ≡ w
  unchanged = ap (λ f. record w { devices = f }) (update_same w.devices dev d stuck.found)

  packet_uses_nothing : packet_input host dev buffer w ≡ done 0 w
  unfolding packet_input note_rx_seq dispatch used_up mux_header_size
  packet_uses_nothing =
      ground (
        arith, stuck.found, stuck.old_version, stuck.some_bytes, stuck.empty_control,
        stuck.harmless,
      )

  device_uses_nothing : device_input host dev buffer w ≡ done 0 w
  unfolding device_input gather gather_first
  device_uses_nothing = ground (
    arith,
    stuck.found,
    stuck.nothing_kept,
    stuck.short_transfer,
    packet_uses_nothing,
    ap (packet_input host dev buffer) unchanged,
  )

  uses_nothing : device_data_input host usbdev buffer w ≡ done 0 w
  unfolding device_data_input
  uses_nothing =
      ground (arith, stuck.listed, stuck.some_bytes, stuck.short_transfer, device_uses_nothing)

  stuck_rounds :
      (fuel : ℕ) (bs : List ℕ) → bs ≡ buffer → process_transfer host fuel usbdev bs w ≡ exhausted
  unfolding process_transfer
  stuck_rounds fuel [] e = absurd (omega (arith, ap length e, stuck.some_bytes))
  stuck_rounds zero (b ∷ bs) e = refl
  stuck_rounds (suc fuel) (b ∷ bs) e = ground (arith, round, stuck_rounds fuel (b ∷ bs) e)
    where
      round : device_data_input host usbdev (b ∷ bs) w ≡ done 0 w
      round = rw e uses_nothing

  -- The loop over the bytes of a transfer makes no progress on a control packet of length zero: it
  -- never ends, however many rounds it is given.
  pub process_transfer_stuck : (fuel : ℕ) → process_transfer host fuel usbdev buffer w ≡ exhausted
  process_transfer_stuck fuel = stuck_rounds fuel buffer refl
