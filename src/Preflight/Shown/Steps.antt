-- ===== src/Preflight/Shown/Steps.antt =====
-- preflight.cpp: no callback and no round of the wait reports a device as there without a reason.
use usbmuxd_plugable_usb_msv.Prelude.{
  ℕ, zero, suc, ◌&&◌, ◌||◌, not, List, [], ◌∷◌, Option, none, some, arith, ℤ, is_neg,
}
use usbmuxd_plugable_usb_msv.World.{DeviceInfo}
use usbmuxd_plugable_usb_msv.World.Host.{Host}
use usbmuxd_plugable_usb_msv.Preflight.{
  LockdownError, user_denied_pairing, mux_error, Phone, Arrival, notification_came, removed, waited,
  P, pure, note, get_cb, ◌>>=◌, client_new, open_client, client_free, set_monitoring, at_least,
  paired,
}
use usbmuxd_plugable_usb_msv.Preflight.Callback.{
  preflight_device_remove_cb, signal_is_paired, lockdownd_set_untrusted_host_buid, pair_on_request,
  set_buid_on_request, np_callback, arrive, arrive_all, serve,
}
use usbmuxd_plugable_usb_msv.Preflight.Session.{
  has_device_record, remove_device_record, start_session, after_failure, check_pairing, pre_pair,
  open_session,
}
use usbmuxd_plugable_usb_msv.Preflight.Polling.{
  PollStep, stop, again, cancel_monitoring, wait_a_second, after_poll, ask_again, wait_and_ask,
  poll, wait_for_user,
}
use usbmuxd_plugable_usb_msv.Preflight.Shown.{
  is_reason, has_reason, is_justified, Keeps, Keeps-bind, Keeps-if,
}

module _ {Plist : Type 0} (phone : Phone Plist) where
  np_callback-Keeps : (n : List ℕ) → Keeps (np_callback phone n)
  unfolding np_callback pair_on_request set_buid_on_request lockdownd_set_untrusted_host_buid
      signal_is_paired client_new open_client client_free is_reason has_reason is_justified
  np_callback-Keeps [] s r = ground (arith, r)
  np_callback-Keeps (c ∷ cs) s r = ground (arith, r)

  arrive_all-Keeps : (arrivals : List Arrival) → Keeps (arrive_all phone arrivals)
  unfolding arrive_all arrive preflight_device_remove_cb
  arrive_all-Keeps [] = λ s r. r
  arrive_all-Keeps (notification_came n ∷ rest) =
      Keeps-bind (np_callback phone n) (λ _. arrive_all phone rest) (np_callback-Keeps n)
        (λ _. arrive_all-Keeps rest)
  arrive_all-Keeps (removed ∷ rest) =
      Keeps-bind preflight_device_remove_cb (λ _. arrive_all phone rest) (λ s r. r)
        (λ _. arrive_all-Keeps rest)

  pub serve-Keeps : Keeps (serve phone)
  unfolding serve
  serve-Keeps s r = arrive_all-Keeps (phone.arrivals s.calls) s r

  pub open_session-Keeps : (info : DeviceInfo) → Keeps (open_session phone info)
  unfolding open_session client_new open_client pre_pair check_pairing start_session
      has_device_record remove_device_record after_failure client_free is_reason has_reason
      is_justified
  open_session-Keeps info s r = ground (arith, r)

module _ (host : Host) (phone : Phone host.Plist) (info : DeviceInfo) where
  after_poll-Keeps :
      (attempts : ℤ) (l : Option ℕ) (err : LockdownError)
      → Keeps (after_poll host phone info attempts l err)
  unfolding after_poll signal_is_paired cancel_monitoring set_monitoring client_new open_client
      client_free is_reason has_reason is_justified
  after_poll-Keeps attempts none user_denied_pairing s r = ground (arith, r)
  after_poll-Keeps attempts none mux_error s r = ground (arith, r)
  after_poll-Keeps attempts none _ s r = ground (arith, r)
  after_poll-Keeps attempts (some l) mux_error s r = ground (arith, r)
  after_poll-Keeps attempts (some l) _ s r = ground (arith, r)

  ask_again-Keeps : (attempts : ℤ) (l : Option ℕ) → Keeps (ask_again host phone info attempts l)
  unfolding ask_again is_reason has_reason is_justified
  ask_again-Keeps attempts l s r =
      after_poll-Keeps attempts l (phone.pair s.calls l)
        (record s { calls = paired l (phone.pair s.calls l) ∷ s.calls }) (ground (arith, r))

  wait_a_second-Keeps : (major : ℤ) → Keeps (wait_a_second host phone info major)
  unfolding wait_a_second is_reason has_reason is_justified
  wait_a_second-Keeps major =
      Keeps-bind (note waited) _ (λ s r. r)
        λ _.
          Keeps-bind (serve phone)
            (λ _. get_cb >>= λ cb s.
              pure (at_least 8 major && (cb.is_paired || phone.wait_fails s.calls)) s)
            (serve-Keeps phone) (λ _ s r. r)

  poll-Keeps : (major attempts : ℤ) (l : Option ℕ) → Keeps (poll host phone info major attempts l)
  unfolding poll wait_and_ask
  poll-Keeps major attempts l = Keeps-bind (serve phone) _ (serve-Keeps phone) λ _.
      Keeps-bind get_cb _ (λ s r. r)
        λ cb.
          Keeps-if (cb.np && cb.is_device_connected && not cb.is_paired && not (is_neg attempts)) _
            _
            (Keeps-bind (wait_a_second host phone info major) _ (wait_a_second-Keeps major)
              λ is_over.
                Keeps-if is_over (pure (stop l)) (ask_again host phone info attempts l) (λ s r. r)
                  (ask_again-Keeps attempts l))
            (λ s r. r)

  pub wait_for_user-Keeps :
      (rounds : ℕ) (major attempts : ℤ) (l : Option ℕ)
      → Keeps (wait_for_user host phone info rounds major attempts l)
  unfolding wait_for_user
  wait_for_user-Keeps zero major attempts l = λ s r. tt
  wait_for_user-Keeps (suc rounds) major attempts l =
      Keeps-bind (poll host phone info major attempts l) _ (poll-Keeps major attempts l)
        λ step. next step (λ left client. wait_for_user-Keeps rounds major left client)
    where
      next :
          (step : PollStep)
          → ((left : ℤ) (client : Option ℕ)
              → Keeps (wait_for_user host phone info rounds major left client))
          → Keeps (elim step as (λ _. P (Option ℕ)) [
            | stop client ↦ pure client
            | again left client ↦ wait_for_user host phone info rounds major left client
          ])
      next (stop client) k = λ s r. r
      next (again left client) k = k left client
