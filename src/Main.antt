-- ===== src/Main.antt =====
-- usbmuxd.cpp: the thread that runs the multiplexer: its sockets, one pass of its loop, the loop.
pub mod Control
pub mod Descriptors
pub mod Timing
use usbmuxd_plugable_usb_msv.Prelude.{
  ℕ, ◌+◌, ◌-◌, ◌*◌, ◌/◌, List, [], ◌∷◌, ◌++◌, Bool, true, false, Option, none, some, ltb,
  if◌then◌else◌,
}
use usbmuxd_plugable_usb_msv.World.{Events, sock_closed}
use usbmuxd_plugable_usb_msv.World.Host.{Host}
use usbmuxd_plugable_usb_msv.World.Step.{M, pure, ◌>>=◌, ◌>>◌, emit, when}
use usbmuxd_plugable_usb_msv.Usb.{Plugin, as_seen}
use usbmuxd_plugable_usb_msv.Usb.Commands.{Driver, usb_process}
use usbmuxd_plugable_usb_msv.Device.Lifecycle.{device_get_timeout, device_check_timeouts}
use usbmuxd_plugable_usb_msv.Device.Sockets.{
  DeviceAccept, DeviceData, device_accept_socket, device_add_fds, device_process_sockets,
}
use usbmuxd_plugable_usb_msv.Client.Socket.{client_accept, client_add_fds, client_process}

-- `SOCKETS_SELECT_INTERVAL`
abbrev pub sockets_select_interval : ℕ
sockets_select_interval = 200

-- `FD_SETSIZE` of Winsock
abbrev pub fd_setsize : ℕ
fd_setsize = 64

-- What `WaitForSingleObject` returns: `WAIT_OBJECT_0`, `WAIT_TIMEOUT`, or an error.
pub data WaitEnd : Type 0 where
  signalled timed_out wait_failed : WaitEnd

-- What `select` returns: `SOCKET_ERROR`, 0, or what it says of each descriptor.
pub data Selected : Type 0 where
  select_failed select_timed_out : Selected
  select_ready : (ℕ → Events) → Selected

-- `USBMUXD_SOCKETS`
pub record ListenSockets : Type 0 where
  pub clients_listen : ℕ
  pub devices_listen : ℕ

-- What Windows answers in one pass of the loop: the wait for the shutdown event, `select`, `accept`
-- on the clients' socket and whether the new socket can be set up, the connection on the devices'
-- socket, and what each USB device has.
pub record Pass : Type 0 where
  pub shutdown : WaitEnd
  pub selected : Selected
  pub accepted : Option ℕ
  pub is_set_up : Bool
  pub device : DeviceAccept
  pub data_of : ℕ → DeviceData

-- `MS_TIMEOUT_TO_TIMEVAL`: seconds and microseconds
unfoldable pub ms_timeout_to_timeval : ℕ → ℕ × ℕ
ms_timeout_to_timeval ms_timeout =
    (ms_timeout / 1000, (ms_timeout - ms_timeout / 1000 * 1000) * 1000)

-- `CreateFdSets`: the descriptors to read from and to write to, and `iFdCount`
unfoldable pub create_fd_sets : ListenSockets → M (List ℕ × List ℕ × ℕ)
create_fd_sets sockets = do
  (client_reads, client_writes, client_count) ← client_add_fds
  (device_reads, device_count) ← device_add_fds
  pure (
    sockets.clients_listen ∷ sockets.devices_listen ∷ (client_reads ++ device_reads),
    client_writes,
    2 + client_count + device_count,
  )

-- There is no room for one more socket.
unfoldable pub is_full : ℕ → Bool
is_full fd_count = ltb fd_setsize (fd_count + 1)

module _ (host : Host) where
  -- `GetCurrentIterationTimeout`
  unfoldable pub get_current_iteration_timeout : M (ℕ × ℕ)
  get_current_iteration_timeout = do
    device_timeout ← device_get_timeout host
    pure (
        ms_timeout_to_timeval (
          if ltb device_timeout sockets_select_interval
          then device_timeout
          else sockets_select_interval))

  module _ (plugin : Plugin) (sockets : ListenSockets) where
    -- The part of a pass after `select` said that there is something to do
    unfoldable pub handle_sockets : Pass → ℕ → (ℕ → Events) → Driver → M Driver
    handle_sockets pass fd_count selected v = do
      when (selected sockets.clients_listen).pollin
          (client_accept pass.accepted (is_full fd_count) pass.is_set_up >> pure tt)
      when (selected sockets.devices_listen).pollin
          (device_accept_socket v.usb pass.device (is_full fd_count) >> pure tt)
      device_process_sockets (as_seen host v.usb) pass.data_of selected
      (_, next) ← usb_process plugin host v
      client_process (as_seen host next.usb) selected
      pure next

    -- One pass of the loop, with whether there is another
    unfoldable pub main_pass : Pass → Driver → M (Bool × Driver)
    main_pass pass v = elim pass.shutdown [
      | signalled ↦ pure (false, v)
      | wait_failed ↦ pure (false, v)
      | timed_out ↦ do
        get_current_iteration_timeout
        (_, _, fd_count) ← create_fd_sets sockets
        elim pass.selected [
          | select_failed ↦ pure (false, v)
          | select_timed_out ↦ do
            (_, next) ← usb_process plugin host v
            device_check_timeouts (as_seen host next.usb)
            pure (true, next)
          | select_ready selected ↦ do
            next ← handle_sockets pass fd_count selected v
            pure (true, next)
        ]
    ]

    -- The loop over these passes, with whether it goes on after them
    unfoldable pub main_loop : List Pass → Driver → M (Bool × Driver)
    main_loop [] v = pure (true, v)
    main_loop (pass ∷ passes) v = do
      (goes_on, next) ← main_pass pass v
      elim goes_on [ true ↦ main_loop passes next | false ↦ pure (false, next) ]

    -- The loop and the end of `MainThreadProc`
    unfoldable pub run_and_close : List Pass → Driver → M (Bool × Driver)
    run_and_close passes v = do
      (goes_on, next) ← main_loop passes v
      elim goes_on [
        | true ↦ pure (true, next)
        | false ↦ do
          emit (sock_closed sockets.clients_listen)
          emit (sock_closed sockets.devices_listen)
          pure (false, next)
      ]
