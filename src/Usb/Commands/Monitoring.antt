-- ===== src/Usb/Commands/Monitoring.antt =====
-- usb-mce.cpp: `usb_set_device_monitoring`, which waits until the main thread has handled its command.
use usbmuxd_plugable_usb_msv.Prelude.{ℕ, Bool, Option, none, some, if◌then◌else◌, ℤ, pos, negsuc}
use usbmuxd_plugable_usb_msv.Usb.{MonitorState}
use usbmuxd_plugable_usb_msv.Usb.Attach.{source_manual}
use usbmuxd_plugable_usb_msv.Usb.Commands.{
  command_set_monitor, PendingCommand, Driver, usb_append_device_command,
}

unfoldable pub monitor_command : ℕ → MonitorState → ℕ → PendingCommand
monitor_command location monitor event = record {
  type = command_set_monitor;
  source = source_manual;
  device_location = location;
  completion_event = some event;
  monitor = monitor;
}

-- `usb_set_device_monitoring`, for the event that could be created, if any, and whether the wait
-- for it ends with `WAIT_OBJECT_0`. The driver is that after the command was appended.
unfoldable pub usb_set_device_monitoring : ℕ → MonitorState → Option ℕ → Bool → Driver → ℤ × Driver
usb_set_device_monitoring location monitor none is_done v = (negsuc 0, v)
usb_set_device_monitoring location monitor (some event) is_done v = (
  if is_done then pos 0 else negsuc 0,
  (usb_append_device_command (monitor_command location monitor event) v).1,
)
