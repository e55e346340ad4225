-- ===== src/Usb/Teardown/Outcome.antt =====
-- usb-mce.cpp: what `usb_disconnect` leaves of a device.
use usbmuxd_plugable_usb_msv.Prelude.{
  ℕ, ◌≡◌, ◌⊎◌, inl, inr, refl, ap, ◌∙◌, Bool, true, false, ◌||◌, none, some, arith, Bool-cases, ◌∷◌,
}
use usbmuxd_plugable_usb_msv.Collection
use usbmuxd_plugable_usb_msv.World.{World, update}
use usbmuxd_plugable_usb_msv.World.Step.{done}
use usbmuxd_plugable_usb_msv.Usb.{
  Usb, UsbDevice, Plugin, reader_told, writer_told, port_closed, ThreadEnd, stopped, killed,
  kill_failed, wait_failed,
}
use usbmuxd_plugable_usb_msv.Usb.Devices.{is_valid_device, is_disabled}
use usbmuxd_plugable_usb_msv.Usb.Teardown.{
  goes_on, closed_device, reset_device, usb_free_device, stop_reader, stop_writer, usb_disconnect,
}

-- How a reading thread is left to run: it could not be killed, or the wait for it failed.
abbrev pub RunsOn : ThreadEnd → Type 0
RunsOn e = (e ≡ kill_failed) ⊎ (e ≡ wait_failed)

-- How it is stopped: by itself, or because it is killed.
abbrev pub HasEnded : ThreadEnd → Type 0
HasEnded e = (e ≡ stopped) ⊎ (e ≡ killed)

ThreadEnd-cases :
    (e : ThreadEnd) → (RunsOn e × (goes_on e ≡ false)) ⊎ (HasEnded e × (goes_on e ≡ true))
ThreadEnd-cases stopped = inr (inl refl, refl)
ThreadEnd-cases killed = inr (inr refl, refl)
ThreadEnd-cases kill_failed = inl (inl refl, refl)
ThreadEnd-cases wait_failed = inl (inr refl, refl)

-- The device is as it was.
abbrev pub IsUntouched : Usb → Usb → Type 0
IsUntouched u v = (v.usb_devices ≡ u.usb_devices) × (v.usb_list ≡ u.usb_list)

-- The device is freed, and off the list.
abbrev pub IsGone : ℕ → Usb → Usb → Type 0
IsGone dev u v =
    (v.usb_devices ≡ update u.usb_devices dev none)
    × (v.usb_list ≡ Collection.remove u.usb_list dev)

-- The device stays where it was, and waits with a port that is not valid and without a reader.
abbrev pub IsReset : ℕ → UsbDevice → Usb → Usb → Type 0
IsReset dev d u v =
    (v.usb_devices ≡ update u.usb_devices dev (some (reset_device d)))
    × (v.usb_list ≡ u.usb_list)
    × ((reset_device d).location ≡ d.location)
    × ((reset_device d).monitor ≡ d.monitor)
    × (is_valid_device (reset_device d) ≡ false)
    × ((reset_device d).rx_thread ≡ false)

module _ (plugin : Plugin) where
  stop_reader_cases :
      (dev : ℕ) (d : UsbDevice) (u : Usb) (w : World)
      → (v : Usb) × (gone : Bool) × (stop_reader plugin dev d u w ≡ done (gone, v) w)
        × IsUntouched u v
        × (((gone ≡ false) × (d.rx_thread ≡ true) × RunsOn (plugin.reader_ends u.calls))
            ⊎ ((gone ≡ true) × ((d.rx_thread ≡ false) ⊎ HasEnded (plugin.reader_ends u.calls))))
  unfolding stop_reader
  stop_reader_cases dev d u w = elim (Bool-cases d.rx_thread) [
    | inr quiet ↦ (u, true, ground (arith, quiet), (refl, refl), inr (refl, inl quiet))
    | inl running ↦ (
      record u { calls = reader_told dev ∷ u.calls },
      goes_on (plugin.reader_ends u.calls),
      ground (arith, running),
      (refl, refl),
      elim (ThreadEnd-cases (plugin.reader_ends u.calls)) [
        | inl (runs, e) ↦ inl (e, running, runs)
        | inr (ended, e) ↦ inr (e, inr ended)
      ],
    )
  ]

  stop_writer_cases :
      (dev : ℕ) (d : UsbDevice) (u : Usb) (w : World)
      → (v : Usb) × (stop_writer plugin dev d u w ≡ done (tt, v) w) × IsUntouched u v
  unfolding stop_writer
  stop_writer_cases dev d u w = elim (Bool-cases d.write_thread_stop) [
    | inr quiet ↦ (u, ground (arith, quiet), (refl, refl))
    | inl running ↦
        (record u { calls = writer_told dev ∷ u.calls }, ground (arith, running), (refl, refl))
  ]

  -- `usb_disconnect` of a device that is there ends, without a fault. If its reading thread runs, and
  -- could not be killed or the wait for it failed, nothing is touched. If there is no such thread, or
  -- it stopped or was killed, a device that is removed by hand or is not monitored is freed and off
  -- the list, and a monitored one stays on the list at its location, with a port that is not valid,
  -- so that the next device there can take its place.
  pub usb_disconnect_lem :
      (dev : ℕ) (manual_remove : Bool) (d : UsbDevice) (u : Usb) (w : World)
      → u.usb_devices dev ≡ some d
      → (v : Usb) × (usb_disconnect plugin dev manual_remove u w ≡ done (tt, v) w)
        × (((d.rx_thread ≡ true) × RunsOn (plugin.reader_ends u.calls) × IsUntouched u v)
            ⊎ (((d.rx_thread ≡ false) ⊎ HasEnded (plugin.reader_ends u.calls))
                × ((((manual_remove || is_disabled d.monitor) ≡ true) × IsGone dev u v)
                    ⊎ (((manual_remove || is_disabled d.monitor) ≡ false) × IsReset dev d u v))))
  unfolding usb_disconnect usb_free_device reset_device is_valid_device closed_device
  usb_disconnect_lem dev manual_remove d u w there =
      let (v, gone, told, same, how) = stop_reader_cases dev d u w in
      let (x, wrote, same₁) = stop_writer_cases dev d v w in
      let devices = same₁.0 ∙ same.0 in
      let listed = same₁.1 ∙ same.1 in
      let still = ap (λ f. f dev) devices ∙ there in
      elim how [
        | inl (stays, running, runs) ↦
            (v, ground (arith, there, told, stays), inl (running, runs, same))
        | inr (ends, over) ↦ elim (Bool-cases (manual_remove || is_disabled d.monitor)) [
          | inl free ↦ (
            record x {
              calls = port_closed dev ∷ x.calls;
              usb_list = Collection.remove x.usb_list dev;
              usb_devices = update x.usb_devices dev none;
            },
            ground (arith, there, told, ends, wrote, free, still),
            inr (
              over,
              inl (
                free,
                (ap (λ f. update f dev none) devices, ap (λ l. Collection.remove l dev) listed),
              ),
            ),
          )
          | inr keep ↦ (
            record x {
              calls = port_closed dev ∷ x.calls;
              usb_devices = update x.usb_devices dev (some (reset_device d));
            },
            ground (arith, there, told, ends, wrote, keep),
            inr (
              over,
              inr (
                keep,
                (
                  ap (λ f. update f dev (some (reset_device d))) devices,
                  listed,
                  refl,
                  refl,
                  refl,
                  refl,
                ),
              ),
            ),
          )
        ]
      ]
