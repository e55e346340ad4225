-- ===== src/Preflight/Polling.antt =====
-- preflight.cpp: the loop of `preflight_worker_handle_device_add` that waits for the user of a device
-- of iOS 7 or later to trust this computer.
use usbmuxd_plugable_usb_msv.Prelude.{
  ℕ, zero, suc, Bool, Option, ◌&&◌, ◌||◌, not, if◌then◌else◌, ℤ, pos, negsuc, is_neg,
}
use usbmuxd_plugable_usb_msv.World.{DeviceInfo}
use usbmuxd_plugable_usb_msv.World.Host.{Host}
use usbmuxd_plugable_usb_msv.Usb.{monitor_disable}
use usbmuxd_plugable_usb_msv.Preflight.{
  LockdownError, lockdown_success, user_denied_pairing, mux_error, user_denied, Phone, told, paired,
  waited, P, pure, ◌>>=◌, ◌>>◌, stuck, note, ask, get_cb, at_least, client_new, client_free,
  set_monitoring,
}
use usbmuxd_plugable_usb_msv.Preflight.Callback.{signal_is_paired, serve}

-- `nLockdownRecreationAttempts`, one less
unfoldable pub pred : ℤ → ℤ
pred (pos zero) = negsuc 0
pred (pos (suc n)) = pos n
pred (negsuc n) = negsuc (suc n)

-- `LOCKDOWN_RECREATION_ATTEMPTS`
abbrev pub lockdown_recreation_attempts : ℤ
lockdown_recreation_attempts = pos 3

-- How a round of the loop ends: with a `break`, or with the attempts and the client for the next
-- test.
pub data PollStep : Type 0 where
  stop : Option ℕ → PollStep
  again : ℤ → Option ℕ → PollStep

module _ (host : Host) (phone : Phone host.Plist) (info : DeviceInfo) where
  -- `usb_set_device_monitoring(info->location, DEVICE_MONITOR_DISABLE, …)`, its result not used
  unfoldable pub cancel_monitoring : P (Unit {0})
  cancel_monitoring = set_monitoring phone info.location monitor_disable >> pure tt

  -- The wait of one round: whether it ends the loop
  unfoldable pub wait_a_second : ℤ → P Bool
  wait_a_second major = do
    note waited
    serve phone
    cb ← get_cb
    (λ s. pure (at_least 8 major && (cb.is_paired || phone.wait_fails s.calls)) s)

  -- What the `lockdownd_pair` of a round leads to
  unfoldable pub after_poll : ℤ → Option ℕ → LockdownError → P PollStep
  after_poll attempts lockdown user_denied_pairing = do
    note (told user_denied info)
    cancel_monitoring
    pure (stop lockdown)
  after_poll attempts lockdown mux_error = do
    client_free lockdown
    renewed ← client_new phone
    pure (again (pred attempts) renewed)
  after_poll attempts lockdown lockdown_success = do
    signal_is_paired
    pure (again attempts lockdown)
  after_poll attempts lockdown _ = pure (again attempts lockdown)

  -- The `lockdownd_pair` of a round
  unfoldable pub ask_again : ℤ → Option ℕ → P PollStep
  ask_again attempts lockdown = do
    err ← ask (λ t. phone.pair t lockdown) (paired lockdown)
    after_poll attempts lockdown err

  -- The body of the loop
  unfoldable pub wait_and_ask : ℤ → ℤ → Option ℕ → P PollStep
  wait_and_ask major attempts lockdown = do
    is_over ← wait_a_second major
    if is_over then pure (stop lockdown) else ask_again attempts lockdown

  -- The test of the loop, and its body
  unfoldable pub poll : ℤ → ℤ → Option ℕ → P PollStep
  poll major attempts lockdown = do
    serve phone
    cb ← get_cb
    if cb.np && cb.is_device_connected && not cb.is_paired && not (is_neg attempts)
        then wait_and_ask major attempts lockdown
        else pure (stop lockdown)

  -- The loop, for so many rounds: the client at its end
  unfoldable pub wait_for_user : ℕ → ℤ → ℤ → Option ℕ → P (Option ℕ)
  wait_for_user zero major attempts lockdown = stuck
  wait_for_user (suc rounds) major attempts lockdown = do
    round ← poll major attempts lockdown
    elim round [
      | stop client ↦ pure client
      | again left client ↦ wait_for_user rounds major left client
    ]
