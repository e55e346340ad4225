-- ===== src/Usb/Commands.antt =====
-- usb-mce.cpp: the queue of device commands, and what `usb_process` does with them.
pub mod Queue
pub mod Monitoring
use usbmuxd_plugable_usb_msv.Prelude.{
  ℕ, zero, suc, List, [], ◌∷◌, ◌++◌, Bool, true, false, ◌&&◌, not, Option, none, some, ◌==◌,
  if◌then◌else◌, length, ℤ, pos, negsuc,
}
use usbmuxd_plugable_usb_msv.Collection
use usbmuxd_plugable_usb_msv.World.Host.{Host}
use usbmuxd_plugable_usb_msv.World.Step.{M, fault}
use usbmuxd_plugable_usb_msv.World.Step
use usbmuxd_plugable_usb_msv.Device.Remove.{device_remove}
use usbmuxd_plugable_usb_msv.Usb.{
  MonitorState, monitor_disable, UsbDevice, event_set, callback_registered, Plugin, Usb, U, pure,
  ◌>>=◌, ◌>>◌, get_usb, load_usb, put_usb, call, mux,
}
use usbmuxd_plugable_usb_msv.Usb.Devices.{
  is_disabled, is_always, is_once, is_waiting, first_at, last_at, have_monitored,
}
use usbmuxd_plugable_usb_msv.Usb.Teardown.{usb_disconnect, usb_free_device, shutdown_devices}
use usbmuxd_plugable_usb_msv.Usb.Attach.{
  Source, source_manual, source_monitor, is_monitor_source, usb_add_pending_device,
}

-- `PENDING_DEVICE_COMMAND_TYPE`
pub data CommandType : Type 0 where
  command_add command_remove command_set_monitor : CommandType

-- `PENDING_DEVICE_COMMAND`
pub record PendingCommand : Type 0 where
  pub type : CommandType
  pub source : Source
  pub device_location : ℕ
  pub completion_event : Option ℕ
  pub monitor : MonitorState

-- The driver with `g_pending_devices`. Only the functions below reach the queue.
pub record Driver : Type 0 where
  pub usb : Usb
  pub pending : List PendingCommand

-- `usb_append_device_command`: the queue, and its length.
unfoldable pub usb_append_device_command : PendingCommand → Driver → ℕ × Driver
usb_append_device_command command v =
    (length (v.pending ++ (command ∷ [])), record v { pending = v.pending ++ (command ∷ []) })

-- `usb_add_device`
unfoldable pub usb_add_device : ℕ → Option ℕ → Driver → ℤ × Driver
usb_add_device location event v = (
  pos 0,
  (usb_append_device_command
      (record {
        type = command_add;
        source = source_manual;
        device_location = location;
        completion_event = event;
        monitor = monitor_disable;
      })
      v).1,
)

-- `usb_remove_device`
unfoldable pub usb_remove_device : ℕ → Option ℕ → Driver → ℤ × Driver
usb_remove_device location event v = (
  pos 0,
  (usb_append_device_command
      (record {
        type = command_remove;
        source = source_manual;
        device_location = location;
        completion_event = event;
        monitor = monitor_disable;
      })
      v).1,
)

-- `DBT_DEVICEARRIVAL` and `DBT_DEVICEREMOVECOMPLETE`, the events that `usb_port_change_callback`
-- knows
abbrev pub dbt_devicearrival : ℕ
dbt_devicearrival = 0x8000

abbrev pub dbt_deviceremovecomplete : ℕ
dbt_deviceremovecomplete = 0x8004

unfoldable pub change_command : CommandType → ℕ → PendingCommand
change_command type location = record {
  type = type;
  source = source_monitor;
  device_location = location;
  completion_event = none;
  monitor = monitor_disable;
}

-- `usb_port_change_callback`, with the location that `sscanf_s` read from the name of the port
unfoldable pub usb_port_change_callback : ℕ → ℕ → Driver → Driver
usb_port_change_callback event location v =
    if event == dbt_devicearrival
    then (usb_append_device_command (change_command command_add location) v).1
    else if event == dbt_deviceremovecomplete
    then (usb_append_device_command (change_command command_remove location) v).1
    else v

-- An event is set if there is one.
unfoldable pub set_event : Option ℕ → U (Unit {0})
set_event none = pure tt
set_event (some event) = call (event_set event)

module _ (plugin : Plugin) where
  -- `usb_update_monitored_devices`
  unfoldable pub usb_update_monitored_devices : U (Unit {0})
  usb_update_monitored_devices = do
    u ← get_usb
    monitored ← have_monitored (Collection.items u.usb_list)
    if monitored && not u.cookie
        then (λ v w.
            call callback_registered (record v { cookie = plugin.register_notification v.calls }) w)
        else pure tt

  module _ (host : Host) where
    -- `usb_remove_pending_device`
    unfoldable pub usb_remove_pending_device : Source → ℕ → Option ℕ → U ℤ
    usb_remove_pending_device source location event = do
      u ← get_usb
      usb_dev ← first_at location (Collection.items u.usb_list)
      elim usb_dev [
        | none ↦ pure (if is_monitor_source source then pos 0 else negsuc 0)
        | some dev ↦ do
          mux host (λ h. device_remove h dev)
          usb_disconnect plugin dev (not (is_monitor_source source))
          set_event event
          pure (pos 0)
      ]

    -- What `usb_handle_device_monitor_command` does with a device that it found
    unfoldable pub change_monitor : ℕ → MonitorState → U (Unit {0})
    change_monitor dev monitor = do
      d ← load_usb dev
      if is_always d.monitor && is_once monitor
          then pure tt
          else if is_disabled monitor && is_waiting d.state
          then usb_free_device dev
          else put_usb dev (record d { monitor = monitor })

    -- `usb_handle_device_monitor_command`; the result of adding a device does not count.
    unfoldable pub usb_handle_device_monitor_command : ℕ → MonitorState → Option ℕ → U ℤ
    usb_handle_device_monitor_command location monitor event = do
      u ← get_usb
      usb_dev ← last_at location none (Collection.items u.usb_list)
      elim usb_dev [
        | some dev ↦ do change_monitor dev monitor; set_event event; pure (pos 0)
        | none ↦
            if is_always monitor
            then (do
              usb_add_pending_device plugin host source_manual location monitor none
              set_event event
              pure (pos 0))
            else pure (negsuc 0)
      ]

    -- The body of the loop of `usb_process`
    unfoldable pub handle_command : PendingCommand → U (Unit {0})
    handle_command c = do
      elim c.type [
        | command_add ↦
            usb_add_pending_device plugin host c.source c.device_location c.monitor
              c.completion_event
            >> pure tt
        | command_remove ↦
            usb_remove_pending_device c.source c.device_location c.completion_event >> pure tt
        | command_set_monitor ↦
            usb_handle_device_monitor_command c.device_location c.monitor c.completion_event
            >> pure tt
      ]
      usb_update_monitored_devices

    -- The loop of `usb_process`: so many times the head of the queue is taken and handled.
    unfoldable pub process_loop : ℕ → Driver → M Driver
    process_loop zero v = Step.pure v
    process_loop (suc left) v = elim v.pending [
      | [] ↦ λ w. fault
      | c ∷ cs ↦
          Step.◌>>=◌ (handle_command c v.usb)
            (λ r. process_loop left (record { usb = r.1; pending = cs }))
    ]

    -- `usb_process`
    unfoldable pub usb_process : Driver → M (ℤ × Driver)
    usb_process v = Step.◌>>=◌ (process_loop (length v.pending) v) (λ next. Step.pure (pos 0, next))

    -- `usb_set_device_monitoring_immediately`
    unfoldable pub usb_set_device_monitoring_immediately :
        ℕ → MonitorState → Driver → M (ℤ × Driver)
    usb_set_device_monitoring_immediately location monitor v =
        usb_process
          (usb_append_device_command
            (record {
              type = command_set_monitor;
              source = source_manual;
              device_location = location;
              completion_event = none;
              monitor = monitor;
            })
            v).1

    -- `usb_shutdown`; the pending commands are dropped.
    unfoldable pub usb_shutdown : Driver → M Driver
    usb_shutdown v =
        Step.◌>>=◌ (shutdown_devices plugin host v.usb)
          (λ r. Step.pure (record { usb = r.1; pending = [] }))
