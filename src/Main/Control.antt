-- ===== src/Main/Control.antt =====
-- usbmuxd.cpp: the functions that the library exports, and the start of its thread.
use usbmuxd_plugable_usb_msv.Prelude.{
  ℕ, List, Bool, true, false, Option, none, some, ◌&&◌, ◌||◌, not, if◌then◌else◌, ℤ, is_neg,
}
use usbmuxd_plugable_usb_msv.World.{sock_closed}
use usbmuxd_plugable_usb_msv.World.Host.{Host}
use usbmuxd_plugable_usb_msv.World.Step.{M, pure, ◌>>=◌, ◌>>◌, emit}
use usbmuxd_plugable_usb_msv.Usb.{MonitorState, monitor_always, monitor_disable, Plugin, as_seen}
use usbmuxd_plugable_usb_msv.Usb.Devices.{usb_init, usb_has_devices}
use usbmuxd_plugable_usb_msv.Usb.Commands.{Driver, usb_add_device, usb_remove_device, usb_shutdown}
use usbmuxd_plugable_usb_msv.Usb.Commands.Monitoring.{usb_set_device_monitoring}
use usbmuxd_plugable_usb_msv.Device.Lifecycle.{device_init, device_kill_connections}
use usbmuxd_plugable_usb_msv.Device.Remove.{device_shutdown}
use usbmuxd_plugable_usb_msv.Client.Socket.{client_init, client_shutdown}
use usbmuxd_plugable_usb_msv.Main.{
  WaitEnd, signalled, timed_out, wait_failed, ListenSockets, Pass, run_and_close,
}

-- `USBMUXD_CONTEXT`; of a handle the model keeps whether it is valid.
pub record Context : Type 0 where
  pub ready_event : Bool
  pub shutdown_event : Bool
  pub clients_port : ℕ
  pub devices_port : ℕ

abbrev pub zero_context : Context
zero_context = record {
  ready_event = false;
  shutdown_event = false;
  clients_port = 0;
  devices_port = 0;
}

-- The globals of usbmuxd.cpp, `g_hMainThread` and `g_tContext`, with the driver.
pub record Muxer : Type 0 where
  pub main_thread : Bool
  pub context : Context
  pub driver : Driver

-- `CreateListenSockets`, for the sockets and ports that the two calls of `CreateListenSocket` give
unfoldable pub create_listen_sockets :
    Option (ℕ × ℕ) → Option (ℕ × ℕ) → Context → M (Option ListenSockets × Context)
create_listen_sockets none second context = pure (none, context)
create_listen_sockets (some (clients, port)) none context =
    emit (sock_closed clients) >> pure (none, record context { clients_port = port })
create_listen_sockets (some (clients, port)) (some (devices, devices_port)) context = pure (
  some (record { clients_listen = clients; devices_listen = devices }),
  record context { clients_port = port; devices_port = devices_port },
)

-- `MainThreadProc`, for what the calls of `CreateListenSocket` give and these passes of its loop:
-- whether the ready event is set, whether the thread goes on, and the context and the driver after it.
unfoldable pub main_thread_proc :
    Host
    → Plugin
    → Option (ℕ × ℕ)
    → Option (ℕ × ℕ)
    → List Pass
    → Context
    → Driver
    → M (Bool × Bool × Context × Driver)
main_thread_proc host plugin clients devices passes context v = do
  (created, bound) ← create_listen_sockets clients devices context
  elim created [
    | none ↦ pure (false, false, bound, v)
    | some sockets ↦ do
      (goes_on, next) ← run_and_close host plugin sockets passes v
      pure (true, goes_on, bound, next)
  ]

-- What Windows and the plug-in answer to `usbmuxd_Start`: `WSAStartup`, the load of the plug-in,
-- `CreateEvent` for the shutdown event and for the ready event, the start of the thread, and the
-- wait for it.
pub record StartAnswers : Type 0 where
  pub is_winsock_started : Bool
  pub is_plugin_loaded : Bool
  pub shutdown_event_created : Bool
  pub ready_event_created : Bool
  pub thread_created : Bool
  pub ready : WaitEnd

-- `WAIT_OBJECT_0 == …`
unfoldable pub is_signalled : WaitEnd → Bool
is_signalled signalled = true
is_signalled _ = false

module _ (host : Host) (plugin : Plugin) where
  -- What `usbmuxd_Shutdown` does once the thread is gone
  unfoldable pub tear_down : Muxer → M (Bool × Muxer)
  tear_down x = do
    device_kill_connections (as_seen host x.driver.usb)
    driver ← usb_shutdown plugin host x.driver
    device_shutdown (as_seen host driver.usb)
    client_shutdown (as_seen host driver.usb)
    pure (true, record { main_thread = false; context = zero_context; driver = driver })

  -- `usbmuxd_Shutdown`, for whether `SetEvent` succeeds, how the wait for the thread ends, and
  -- whether a thread that does not end, and is killed, holds a critical section that the clean-up
  -- enters: nothing gives that back, so that the call never returns, which is `none`.
  unfoldable pub usbmuxd_shutdown : Bool → WaitEnd → Bool → Muxer → M (Option (Bool × Muxer))
  usbmuxd_shutdown is_set ended is_locked x =
      if x.main_thread && x.context.shutdown_event && is_set
      then elim ended [
        | signalled ↦ (do r ← tear_down x; pure (some r))
        | timed_out ↦ if is_locked then pure none else (do r ← tear_down x; pure (some r))
        | wait_failed ↦ pure (some (false, x))
      ]
      else pure (some (false, x))

  abbrev and_fail : Option (Bool × Muxer) → Option (Bool × Muxer)
  and_fail none = none
  and_fail (some (_, y)) = some (false, y)

  -- `lblCleanup` of `usbmuxd_Start`
  unfoldable pub give_up : Bool → WaitEnd → Bool → Muxer → M (Option (Bool × Muxer))
  give_up is_set ended is_locked x = do
    r ← usbmuxd_shutdown is_set ended is_locked x
    pure (and_fail r)

  -- `usbmuxd_Start`, with the answers to the `usbmuxd_Shutdown` that it may call
  unfoldable pub usbmuxd_start :
      StartAnswers → Bool → WaitEnd → Bool → ℕ → Muxer → M (Option (Bool × Muxer))
  usbmuxd_start answers is_set ended is_locked port x =
      if x.main_thread || not answers.is_winsock_started then pure (some (false, x)) else (do
        client_init
        device_init
        let (res, usb) = usb_init answers.is_plugin_loaded x.driver.usb
        let started = record x { driver = record (x.driver) { usb = usb } }
        if is_neg res
            then pure (some (false, started))
            else open_thread (record started {
              context = record {
                ready_event = answers.ready_event_created;
                shutdown_event = answers.shutdown_event_created;
                clients_port = port;
                devices_port = 0;
              };
            }))
    where
      open_thread : Muxer → M (Option (Bool × Muxer))
      open_thread y =
          if y.context.ready_event && y.context.shutdown_event
          then (let z = record y { main_thread = answers.thread_created } in
              if answers.thread_created && is_signalled answers.ready
              then pure (some (true, z))
              else give_up is_set ended is_locked z)
          else give_up is_set ended is_locked y

-- `usbmuxd_GetPort`, `usbmuxd_GetDevicesPort`
unfoldable pub usbmuxd_get_port : Muxer → ℕ
usbmuxd_get_port x = x.context.clients_port

unfoldable pub usbmuxd_get_devices_port : Muxer → ℕ
usbmuxd_get_devices_port x = x.context.devices_port

-- A command to the driver of a library that runs; the location is what `sscanf_s` read.
unfoldable pub command : (Driver → ℤ × Driver) → Muxer → Bool × Muxer
command f x =
    if x.main_thread
    then (let (res, driver) = f x.driver in (not (is_neg res), record x { driver = driver }))
    else (false, x)

-- `usbmuxd_AddDevice`
unfoldable pub usbmuxd_add_device : ℕ → Option ℕ → Muxer → Bool × Muxer
usbmuxd_add_device location completion_event = command (usb_add_device location completion_event)

-- `usbmuxd_RemoveDevice`
unfoldable pub usbmuxd_remove_device : ℕ → Option ℕ → Muxer → Bool × Muxer
usbmuxd_remove_device location completion_event =
    command (usb_remove_device location completion_event)

-- `SetDeviceMonitoring`, for the event that `usb_set_device_monitoring` creates and how its wait ends
unfoldable pub set_device_monitoring : ℕ → MonitorState → Option ℕ → Bool → Muxer → Bool × Muxer
set_device_monitoring location monitor event is_done =
    command (usb_set_device_monitoring location monitor event is_done)

-- `usbmuxd_StartMonitoringDevice`
unfoldable pub usbmuxd_start_monitoring_device : ℕ → Option ℕ → Bool → Muxer → Bool × Muxer
usbmuxd_start_monitoring_device location = set_device_monitoring location monitor_always

-- `usbmuxd_StoptMonitoringDevice`
unfoldable pub usbmuxd_stop_monitoring_device : ℕ → Option ℕ → Bool → Muxer → Bool × Muxer
usbmuxd_stop_monitoring_device location = set_device_monitoring location monitor_disable

-- `usbmuxd_HasDevices`
unfoldable pub usbmuxd_has_devices : Muxer → M Bool
usbmuxd_has_devices x = do (found, _) ← usb_has_devices x.driver.usb; pure found
