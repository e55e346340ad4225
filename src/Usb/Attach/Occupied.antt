-- ===== src/Usb/Attach/Occupied.antt =====
-- usb-mce.cpp: `usb_add_pending_device` at a location that has a valid device.
use usbmuxd_plugable_usb_msv.Prelude.{
  ℕ, ◌≡◌, ◌≢◌, inl, inr, refl, sym, subst, ap, ◌∙◌, List, [], ◌∷◌, ◌++◌, Bool, true, false, ◌||◌,
  Option, none, some, arith, ◌==◌, if◌then◌else◌, negsuc, Bool-cases,
}
use usbmuxd_plugable_usb_msv.Collection
use usbmuxd_plugable_usb_msv.World.{World, DeviceInfo}
use usbmuxd_plugable_usb_msv.World.Host.{Host}
use usbmuxd_plugable_usb_msv.World.Step.{M, pure, done, load_device, load_client}
use usbmuxd_plugable_usb_msv.World.Step
use usbmuxd_plugable_usb_msv.World.Step.Ends.{
  Ends, Ends-bind, Ends-map, Halts, Halts-bind, Halts-if, Halts-pure, Halts-load_device,
  Halts-option,
}
use usbmuxd_plugable_usb_msv.Client.Notify.Halting.{client_device_error_already_exits-Halts}
use usbmuxd_plugable_usb_msv.Client.Notify.{client_device_error_already_exits}
use usbmuxd_plugable_usb_msv.Device.Mux.{is_init}
use usbmuxd_plugable_usb_msv.Device.Remove.{find_at_location, device_is_initializing}
use usbmuxd_plugable_usb_msv.Usb.{
  Usb, UsbDevice, MonitorState, Plugin, U, pure as pure_U, ◌>>=◌, mux, as_seen,
}
use usbmuxd_plugable_usb_msv.Usb.Devices.{is_valid_device, is_once}
use usbmuxd_plugable_usb_msv.Usb.Attach.{
  Source, occupied, find_slot, usb_report_device_already_exists, usb_add_pending_device,
}

module _ (host : Host) where
  find_at_location-Halts : (usbdev : ℕ) (ps : List ℕ) → Halts (find_at_location host usbdev ps)
  unfolding find_at_location
  find_at_location-Halts usbdev [] = Halts-pure {A = Option ℕ} none
  find_at_location-Halts usbdev (p ∷ ps) = Halts-bind (load_device p) _ (Halts-load_device p) λ d.
      Halts-if (host.usb_location usbdev == host.usb_location d.usbdev) _ _ (Halts-pure (some p))
        (find_at_location-Halts usbdev ps)

  device_is_initializing-Halts : (usbdev : ℕ) → Halts (device_is_initializing host usbdev)
  unfolding device_is_initializing
  device_is_initializing-Halts usbdev w =
      Halts-bind (find_at_location host usbdev (Collection.items w.device_list)) _
        (find_at_location-Halts usbdev _)
        (λ found. Halts-option found _ _ (Halts-pure false) (λ dev.
          Halts-bind (load_device dev) _ (Halts-load_device dev)
            (λ d. Halts-pure {A = Bool} (is_init d.state || d.is_preflight_worker_running))))
        w

-- The devices of the driver before the one that is found are there, and at other locations.
abbrev pub AreElsewhere : Usb → ℕ → List ℕ → Type 0
AreElsewhere u location [] = Unit
AreElsewhere u location (p ∷ ps) =
    ((d : UsbDevice) × (u.usb_devices p ≡ some d) × (d.location ≢ location))
    × AreElsewhere u location ps

find_slot_occupied :
    (u : Usb) (location : ℕ) (before after : List ℕ) (dev : ℕ) (d : UsbDevice) (w : World)
    → AreElsewhere u location before
    → u.usb_devices dev ≡ some d
    → d.location ≡ location
    → is_valid_device d ≡ true
    → find_slot location none (before ++ (dev ∷ after)) u w ≡ done (occupied dev, u) w
unfolding find_slot
find_slot_occupied u location [] after dev d w t there at valid = ground (arith, there, at, valid)
find_slot_occupied u location (p ∷ before) after dev d w ((e, here, ne), t) there at valid =
    ground (arith, here, ne, find_slot_occupied u location before after dev d w t there at valid)

module _ (plugin : Plugin) (host : Host) where
  mux-Ends :
      {A : Type 0} (f : Host → M A) (u : Usb) (w : World)
      → Halts (f (as_seen host u))
      → Ends (λ r _. r.1 ≡ u) (mux host f u w)
  mux-Ends f u w h =
      Ends-bind (λ _ _. Unit {0}) (λ r _. r.1 ≡ u) (f (as_seen host u)) _ w (h w) (λ a v p. refl)

  -- `deviceInfo` of the report
  abbrev error_of : UsbDevice → DeviceInfo
  error_of d = record { id = d.id; serial = d.serial; location = d.location; pid = d.port.pid }

  -- The report about a device that is not monitored once
  report : ℕ → UsbDevice → U (Unit {0})
  report dev d = mux host (λ h. device_is_initializing h dev) >>= λ initializing.
      if initializing
      then pure_U tt
      else mux host (λ h. client_device_error_already_exits h (error_of d))

  report-Ends :
      (dev : ℕ) (d : UsbDevice) (u : Usb) (w : World) → Ends (λ r _. r.1 ≡ u) (report dev d u w)
  unfolding report
  report-Ends dev d u w =
      Ends-bind (λ r _. r.1 ≡ u) (λ r _. r.1 ≡ u) (mux host (λ h. device_is_initializing h dev) u) _
        w
        (mux-Ends (λ h. device_is_initializing h dev) u w
          (device_is_initializing-Halts (as_seen host u) dev))
        (λ r v same. told r.0 r.1 v same)
    where
      told :
          (b : Bool) (x : Usb) (v : World)
          → x ≡ u
          → Ends
              (λ r _. r.1 ≡ u)
              ((if b
                  then pure_U tt
                  else mux host (λ h. client_device_error_already_exits h (error_of d)))
                x v)
      told true x v same = same
      told false x v same =
          Ends-map (λ r _. r.1 ≡ x) (λ r _. r.1 ≡ u) _ (λ r _ e. e ∙ same)
            (mux-Ends (λ h. client_device_error_already_exits h (error_of d)) x v
              (client_device_error_already_exits-Halts (as_seen host x) (error_of d)))

  usb_report_device_already_exists-Ends :
      (dev : ℕ) (d : UsbDevice) (u : Usb) (w : World)
      → u.usb_devices dev ≡ some d
      → Ends (λ r _. r.1 ≡ u) (usb_report_device_already_exists plugin host dev u w)
  unfolding usb_report_device_already_exists report
  usb_report_device_already_exists-Ends dev d u w there = elim (Bool-cases (is_once d.monitor)) [
    | inl once ↦ subst (Ends (λ r _. r.1 ≡ u)) (sym (short once)) refl
    | inr more ↦ subst (Ends (λ r _. r.1 ≡ u)) (sym (long more)) (report-Ends dev d u w)
  ]
    where
      short :
          is_once d.monitor ≡ true
          → usb_report_device_already_exists plugin host dev u w ≡ done (tt, u) w
      short once = ground (arith, there, once)

      long :
          is_once d.monitor ≡ false
          → usb_report_device_already_exists plugin host dev u w ≡ report dev d u w
      long more = ground (arith, there, more)

  -- At a location that has a valid device, which the search comes to before any other there,
  -- `usb_add_pending_device` ends; unless telling the clients comes to a fault it returns -1, and no
  -- device of the driver and nothing else of its state is touched, whatever else was asked for.
  pub usb_add_pending_device_occupied :
      (source : Source) (location : ℕ) (monitor : MonitorState) (event : Option ℕ) (u : Usb)
      (before after : List ℕ) (dev : ℕ) (d : UsbDevice) (w : World)
      → Collection.items u.usb_list ≡ before ++ (dev ∷ after)
      → AreElsewhere u location before
      → u.usb_devices dev ≡ some d
      → d.location ≡ location
      → is_valid_device d ≡ true
      → Ends
          (λ r _. (r.0 ≡ negsuc 0) × (r.1 ≡ u))
          (usb_add_pending_device plugin host source location monitor event u w)
  unfolding usb_add_pending_device
  usb_add_pending_device_occupied source location monitor event u before after dev d w items t there
        at valid =
      subst (Ends (λ r _. (r.0 ≡ negsuc 0) × (r.1 ≡ u))) (sym goes) (
        Ends-bind (λ r _. r.1 ≡ u) (λ r _. (r.0 ≡ negsuc 0) × (r.1 ≡ u))
          (usb_report_device_already_exists plugin host dev u) (λ r. done (negsuc 0, r.1)) w
          (usb_report_device_already_exists-Ends dev d u w there) (λ r v same. (refl, same)))
    where
      found : find_slot location none (Collection.items u.usb_list) u w ≡ done (occupied dev, u) w
      found =
          ap (λ l. find_slot location none l u w) items
          ∙ find_slot_occupied u location before after dev d w t there at valid

      goes :
          usb_add_pending_device plugin host source location monitor event u w
          ≡ Step.◌>>=◌
              (usb_report_device_already_exists plugin host dev u)
              (λ r. done (negsuc 0, r.1))
              w
      goes = ground (arith, found)
