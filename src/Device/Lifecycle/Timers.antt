-- ===== src/Device/Lifecycle/Timers.antt =====
-- device.cpp: `device_get_timeout` against `device_check_timeouts`.
use usbmuxd_plugable_usb_msv.Prelude.{
  ◌⊎◌, inl, inr, Bool-cases, ℕ, ◌+◌, ◌^◌, ◌≤◌, ◌<◌, ◌≡◌, true, false, arith,
}
use usbmuxd_plugable_usb_msv.World.{MuxConnection}
use usbmuxd_plugable_usb_msv.World.Host.{Host}
use usbmuxd_plugable_usb_msv.Device.Lifecycle.{ack_timeout, awaits_ack, timeout_at, is_overdue}

-- For the connection that has waited longest to acknowledge: the timeout that `device_get_timeout`
-- gives the main loop is at most ACK_TIMEOUT. The connection is not overdue by its end, unless it
-- was already, and is overdue for `device_check_timeouts` one millisecond later at the latest.
timeout_at_lem :
    (host : Host) (ct : ℕ) (c : MuxConnection)
    → awaits_ack c ≡ true
    → c.last_ack_time ≤ ct
    → ct < 2 ^ 63
    → let timeout = timeout_at ct c.last_ack_time in
      (timeout ≤ ack_timeout)
      × (is_overdue host (ct + timeout + 1) c ≡ true)
      × (((is_overdue host ct c ≡ true) × (timeout ≡ 0))
          ⊎ ((is_overdue host ct c ≡ false) × (is_overdue host (ct + timeout) c ≡ false)))
unfolding timeout_at is_overdue
timeout_at_lem host ct c waits past h = elim (Bool-cases (is_overdue host ct c)) [
  | inl over ↦ (ground arith, ground arith, inl (over, ground arith))
  | inr due ↦ (ground arith, ground arith, inr (due, ground arith))
]
