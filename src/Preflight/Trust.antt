-- ===== src/Preflight/Trust.antt =====
-- preflight.cpp: `preflight_worker_handle_device_add` for a device of iOS 7 or later: the trust
-- dialog, and the wait for the user.
use usbmuxd_plugable_usb_msv.Prelude.{
  ℕ, zero, suc, Bool, true, false, Option, none, some, ◌&&◌, not, if◌then◌else◌, ℤ,
}
use usbmuxd_plugable_usb_msv.World.{DeviceInfo}
use usbmuxd_plugable_usb_msv.World.Host.{Host, PlistType, plist_boolean}
use usbmuxd_plugable_usb_msv.Usb.{monitor_once}
use usbmuxd_plugable_usb_msv.Preflight.{
  LockdownError, lockdown_success, user_denied_pairing, password_protected, is_success,
  is_password_protected, device_added, user_denied, password_needed, trust_pending, Phone, told,
  value_asked, paired, service_started, proxy_opened, proxy_freed, callback_set, cb_data_set,
  notifications_observed, event_created, event_closed, P, pure, ◌>>=◌, ◌>>◌, when, note, ask,
  get_cb, set_cb, at_least, client_free, set_monitoring,
}
use usbmuxd_plugable_usb_msv.Preflight.Callback.{lockdownd_set_untrusted_host_buid, serve}
use usbmuxd_plugable_usb_msv.Preflight.Polling.{
  cancel_monitoring, lockdown_recreation_attempts, wait_for_user,
}

abbrev is_boolean : PlistType → Bool
is_boolean plist_boolean = true
is_boolean _ = false

abbrev is_nonzero : Option ℕ → Bool
is_nonzero none = false
is_nonzero (some zero) = false
is_nonzero (some (suc n)) = true

-- `version_major <= 7 && version_minor < 1`
unfoldable pub is_before_7_1 : ℤ → ℤ → Bool
is_before_7_1 major minor = not (at_least 8 major) && not (at_least 1 minor)

module _ (host : Host) (phone : Phone host.Plist) (info : DeviceInfo) where
  -- `itunes_setup_has_completed`
  unfoldable pub itunes_setup_has_completed : ℕ → P Bool
  itunes_setup_has_completed lockdown = do
    (err, node) ←
        ask (λ t. phone.get_value t (some "com.apple.mobile.iTunes") "iTunesSetupComplete")
          (λ _. value_asked lockdown "iTunesSetupComplete")
    pure (is_success err && is_completed node)
    where
      is_completed : Option host.Plist → Bool
      is_completed none = false
      is_completed (some node) =
          is_boolean (host.plist_get_node_type node) && is_nonzero (host.plist_get_bool_val node)

  -- What the first `lockdownd_pair` leads to: `should_stop_preflight`.
  unfoldable pub after_first_pair : ℕ → ℤ → ℤ → LockdownError → P Bool
  after_first_pair lockdown major minor lockdown_success =
      note (told device_added info) >> pure true
  after_first_pair lockdown major minor user_denied_pairing =
      note (told user_denied info) >> pure true
  after_first_pair lockdown major minor password_protected =
      if is_before_7_1 major minor
      then (do
        is_completed ← itunes_setup_has_completed lockdown
        if is_completed then pure false else note (told password_needed info) >> pure true)
      else pure false
  after_first_pair lockdown major minor _ = pure false

  -- The first part of the wait for the trust of the user: `np`, unless the code goes to `leave`.
  unfoldable pub start_watch : ℕ → LockdownError → P (Option Bool)
  start_watch lockdown pair_err = do
    err ← ask phone.start_service (service_started lockdown)
    if is_success err
        then (do
          np ← ask phone.np_client_new proxy_opened
          note (told trust_pending info)
          is_created ← ask phone.create_event event_created
          pure (if is_created then some np else none))
        else (do
          when (is_password_protected pair_err) (note (told password_needed info))
          cancel_monitoring host phone info
          pure none)

  -- The callbacks are set up.
  unfoldable pub observe : Bool → ℤ → P (Unit {0})
  observe np major = do
    set_cb
        (record { np = np; version_major = major; is_device_connected = true; is_paired = false })
    note (callback_set true)
    note (cb_data_set info.id true)
    note notifications_observed

  -- What follows the loop up to the last test
  unfoldable pub stop_watch : Option ℕ → P (Unit {0})
  stop_watch lockdown = do client_free lockdown; note (cb_data_set info.id false); serve phone

  -- The rest of the branch
  unfoldable pub conclude : ℤ → P (Unit {0})
  conclude major = do
    cb ← get_cb
    when cb.np (note (callback_set false) >> note proxy_freed)
    when (at_least 8 major && cb.is_paired)
        (note (told device_added info) >> cancel_monitoring host phone info)
    note event_closed

  -- From `np_set_notify_callback` to the end of the branch
  unfoldable pub watch : ℕ → ℕ → ℤ → Bool → P (Unit {0})
  watch rounds lockdown major np = do
    observe np major
    client ← wait_for_user host phone info rounds major lockdown_recreation_attempts (some lockdown)
    stop_watch client
    conclude major

  -- From the notification proxy on: `lockdown` at `leave`
  unfoldable pub wait_for_trust : ℕ → ℕ → LockdownError → ℤ → P (Option ℕ)
  wait_for_trust rounds lockdown pair_err major = do
    started ← start_watch lockdown pair_err
    elim started [
      | none ↦ pure (some lockdown)
      | some np ↦ watch rounds lockdown major np >> pure none
    ]

  -- What comes before the wait: `should_stop_preflight` and `pair_err`, or nothing if the device
  -- cannot be monitored.
  unfoldable pub ask_for_trust : ℕ → Bool → ℤ → ℤ → P (Option (Bool × LockdownError))
  ask_for_trust lockdown is_device_paired major minor = do
    is_monitored ←
        if at_least 8 major then pure true else set_monitoring phone info.location monitor_once
    if is_monitored
        then (do
          lockdownd_set_untrusted_host_buid phone lockdown
          if is_device_paired then pure (some (false, lockdown_success)) else (do
            err ← ask (λ t. phone.pair t (some lockdown)) (paired (some lockdown))
            should_stop ← after_first_pair lockdown major minor err
            pure (some (should_stop, err))))
        else pure none

  -- "iOS 7.0 and later": `lockdown` at `leave`
  unfoldable pub trust : ℕ → ℕ → Bool → ℤ → ℤ → P (Option ℕ)
  trust rounds lockdown is_device_paired major minor = do
    asked ← ask_for_trust lockdown is_device_paired major minor
    elim asked [
      | none ↦ pure (some lockdown)
      | some (should_stop, err) ↦
          if should_stop then pure (some lockdown) else wait_for_trust rounds lockdown err major
    ]
