-- ===== src/Preflight/DeviceAdd.antt =====
-- preflight.cpp: `preflight_worker_handle_device_add` as a whole.
pub mod Verdict
use usbmuxd_plugable_usb_msv.Prelude.{ℕ, zero, suc, Bool, List, Option, none, some, if◌then◌else◌}
use usbmuxd_plugable_usb_msv.World.{DeviceInfo}
use usbmuxd_plugable_usb_msv.World.Host.{Host}
use usbmuxd_plugable_usb_msv.Preflight.{
  is_success, is_password_protected, device_added, password_needed, finished, Phone, told,
  pair_validated, paired, P, pure, ◌>>=◌, ◌>>◌, when, require, stuck, note, ask, at_least,
  client_free,
}
use usbmuxd_plugable_usb_msv.Preflight.Session.{
  Next, to_leave, retry, go_on, after_dot, start_session, open_session, product_version,
}
use usbmuxd_plugable_usb_msv.Preflight.Trust.{trust}

module _ (host : Host) (phone : Phone host.Plist) (info : DeviceInfo) where
  -- "iOS 6.x and earlier": `lockdown` at `leave`
  unfoldable pub pair_early : ℕ → P (Option ℕ)
  pair_early lockdown = do
    err ← ask (λ t. phone.pair t (some lockdown)) (paired (some lockdown))
    if is_success err
        then (do
          session_err ← start_session phone lockdown
          if is_success session_err
              then (do
                valid_err ← ask phone.validate_pair (pair_validated lockdown)
                when (is_success valid_err) (note (told device_added info)))
              else pure tt)
        else when (is_password_protected err) (note (told password_needed info))
    pure (some lockdown)

  -- From `lockdownd_get_value` on, with the rounds of the wait for the user
  unfoldable pub by_version : ℕ → ℕ → Bool → P (Option ℕ)
  by_version rounds lockdown is_device_paired = do
    version ← product_version host phone lockdown
    elim version [
      | none ↦ pure (some lockdown)
      | some text ↦ do
        minor_text ← require (after_dot text)
        if at_least 7 (phone.strtol text)
            then trust host phone info rounds lockdown is_device_paired (phone.strtol text)
                (phone.strtol minor_text)
            else pair_early lockdown
    ]

  -- Up to `leave`, with so many passes from `retry`
  unfoldable pub until_leave : ℕ → ℕ → P (Option ℕ)
  until_leave zero rounds = stuck
  until_leave (suc passes) rounds = do
    next ← open_session phone info
    elim next [
      | to_leave lockdown ↦ pure lockdown
      | retry ↦ until_leave passes rounds
      | go_on lockdown is_device_paired ↦ by_version rounds lockdown is_device_paired
    ]

  -- `preflight_worker_handle_device_add`
  unfoldable pub preflight_worker_handle_device_add : ℕ → ℕ → P (Unit {0})
  preflight_worker_handle_device_add passes rounds = do
    lockdown ← until_leave passes rounds
    client_free lockdown
    note (told finished info)
