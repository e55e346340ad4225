-- ===== src/Main/Timing.antt =====
-- usbmuxd.cpp: how long a pass of the loop may wait.
use usbmuxd_plugable_usb_msv.Prelude.{
  ℕ, ◌+◌, ◌*◌, ◌^◌, ◌-◌, ◌<◌, ◌≤◌, ◌≡◌, List, [], ◌∷◌, Bool, true, false, Option, arith,
  if◌then◌else◌, ltb,
}
use usbmuxd_plugable_usb_msv.Collection
use usbmuxd_plugable_usb_msv.Collection.{Collection}
use usbmuxd_plugable_usb_msv.World.{World, clock_read}
use usbmuxd_plugable_usb_msv.World.Host.{Host}
use usbmuxd_plugable_usb_msv.World.Step.{M, pure, require, ◌>>=◌, load_conn, load_device}
use usbmuxd_plugable_usb_msv.World.Step.Ends.{Ends, Ends-bind}
use usbmuxd_plugable_usb_msv.World.Step.Reads.{
  Reads, Reads-bind, Reads-pure, Reads-require, Reads-load_conn, Reads-load_device,
}
use usbmuxd_plugable_usb_msv.Device.Packet.{read_clock}
use usbmuxd_plugable_usb_msv.Device.Input.{is_active}
use usbmuxd_plugable_usb_msv.Device.Lifecycle.{
  oldest_conn, oldest_device, device_get_timeout, timeout_at,
}
use usbmuxd_plugable_usb_msv.Main.{
  ms_timeout_to_timeval, get_current_iteration_timeout, sockets_select_interval,
}

-- The time is the same, and the microseconds are less than a second.
ms_timeout_to_timeval_lem :
    (t : ℕ)
    → ((ms_timeout_to_timeval t).0 * 1000000 + (ms_timeout_to_timeval t).1 ≡ t * 1000)
      × ((ms_timeout_to_timeval t).1 < 1000000)
unfolding ms_timeout_to_timeval
ms_timeout_to_timeval_lem t = omega arith

oldest_conn-Reads : (ps : List ℕ) (oldest : ℕ) → Reads (oldest_conn oldest ps)
unfolding oldest_conn
oldest_conn-Reads [] oldest = Reads-pure oldest
oldest_conn-Reads (p ∷ ps) oldest =
    Reads-bind (load_conn p) _ (Reads-load_conn p) λ c. oldest_conn-Reads ps _

-- `oldest` after the connections of a device
abbrev oldest_of : ℕ → Bool → Option Collection → M ℕ
oldest_of oldest is_on conns =
    if is_on then require conns >>= (λ c. oldest_conn oldest (Collection.items c)) else pure oldest

oldest_of-Reads :
    (oldest : ℕ) (is_on : Bool) (c : Option Collection) → Reads (oldest_of oldest is_on c)
oldest_of-Reads oldest true c =
    Reads-bind (require c) _ (Reads-require c)
      λ conns. oldest_conn-Reads (Collection.items conns) oldest
oldest_of-Reads oldest false c = Reads-pure oldest

oldest_device-Reads : (ps : List ℕ) (oldest : ℕ) → Reads (oldest_device oldest ps)
unfolding oldest_device
oldest_device-Reads [] oldest = Reads-pure oldest
oldest_device-Reads (p ∷ ps) oldest = Reads-bind (load_device p) _ (Reads-load_device p) λ d.
    Reads-bind (oldest_of oldest (is_active d.state) d.connections) _
      (oldest_of-Reads oldest (is_active d.state) d.connections) λ next. oldest_device-Reads ps next

module _ (host : Host) where
  -- What the loop makes of the timeout of the devices
  timeval_bounds :
      (t : ℕ)
      → ((ms_timeout_to_timeval
            (if ltb t sockets_select_interval then t else sockets_select_interval)).0
          ≡ 0)
        × ((ms_timeout_to_timeval
              (if ltb t sockets_select_interval then t else sockets_select_interval)).1
            ≤ 200000)
  unfolding ms_timeout_to_timeval
  timeval_bounds t = ground arith

  -- Setting the timeout of a pass ends: `select` gets 0 seconds and at most 200000 microseconds,
  -- however long the devices could wait, and nothing changes but that the clock was read.
  pub get_current_iteration_timeout-Ends :
      (w : World)
      → Ends
          (λ r v. (r.0 ≡ 0) × (r.1 ≤ 200000) × (v ≡ record w { trace = clock_read ∷ w.trace }))
          (get_current_iteration_timeout host w)
  unfolding get_current_iteration_timeout device_get_timeout read_clock
  get_current_iteration_timeout-Ends w =
      Ends-bind (λ _ v. v ≡ record w { trace = clock_read ∷ w.trace }) _ (device_get_timeout host) _
        w
        (Ends-bind (λ _ v. v ≡ w) (λ _ v. v ≡ record w { trace = clock_read ∷ w.trace })
          (oldest_device (2 ^ 64 - 1) (Collection.items w.device_list))
          (λ oldest. read_clock host >>= λ ct. pure (timeout_at ct oldest)) w
          (oldest_device-Reads (Collection.items w.device_list) (2 ^ 64 - 1) w)
          λ _ v e. ground (arith, e))
        λ t v e. ground (arith, timeval_bounds t, e)
