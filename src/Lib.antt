-- ===== src/Lib.antt =====
-- usbmuxd for a plugable USB stack: the multiplexer between iOS devices and the programs that talk
-- to them.
--
-- The multiplexer keeps a list of devices (device.cpp), each with its TCP-like connections over USB,
-- and a list of clients (client.cpp), each behind a socket. A client asks for a connection to a port
-- of a device; from then on bytes of the client go to the device as TCP packets, and payloads of the
-- device go to the client. Devices and connections reach clients by pointers and the other way
-- round, so that both are kept in one store.
--
-- Prelude, Prelude/*: Booleans, lists, options and the integers, on the native numbers.
-- Collection: the pointer collections of utils.cpp, and FOREACH of utils.h.
-- Wire: the headers of device.cpp, usbmuxd-proto.h and cygwin/netinet/tcp.h as bytes.
-- World: `struct mux_device`, `struct mux_connection`, `struct mux_client` and the globals
--   `device_list`, `client_list` and `next_device_id`. An object lives at an address; freeing it
--   leaves nothing there, and a load of nothing is a fault. What goes out is recorded in a trace.
-- World/Step: operations as functions on the world that end with a result, or in a fault (a
--   dereference of freed or missing memory), or run out of rounds.
-- World/Host: what the program calls and does not define: the USB stack, sockets, the clock, the
--   configuration store and libplist, with the bounds that send and recv document.
-- Device/Packet: `send_packet`, `send_anon_rst`, `send_tcp`.
-- Device/Window: the counters of a connection: `update_connection`, `connection_device_input`,
--   `device_client_process`.
-- Device/Ports: `find_sport`, `get_next_device_id`, `device_start_connect`.
-- Device/Teardown: `connection_teardown`, `device_abort_connect`, `client_close`, `send_tcp_ack`.
-- Device/Input: `device_tcp_input`, `connection_device_input`, `device_client_process`.
-- Device/Mux: `device_data_input`, its handlers, and the loop of `device_process_sockets` over the
--   bytes of a transfer.
-- Device/Lifecycle, Device/Remove: `device_add`, `device_remove`, `device_shutdown`, the list of
--   devices, the timers.
-- Client/Reply: `send_pkt`, `send_plist_pkt`, `send_result`, `client_notify_connect`,
--   `client_set_events`, `client_read`, `client_write`.
-- Client/Notify: the device list and the messages to listening clients.
-- Client/Plist, Client/Pairing, Client/Command: the `handle_…_command` functions.
-- Client/Dispatch: `client_command`, `handle_client_plist_command`.
-- Client/Socket: `client_accept`, `process_send`, `process_recv`, `client_process`,
--   `client_shutdown`.
-- Config: conf.cpp, over a table of files and directories that a platform record opens, makes and
--   removes; a function ends with nothing where it goes through a null pointer.
-- Config/Files: the files, paths and directories of conf.cpp, and the file helpers of utils.cpp.
-- Config/Values, Config/Buid, Config/Records: the values by their keys, the system's id, the pairing
--   records. Config/Laws: what the theorems take from libplist and from the platform.
-- Usb: usb-mce.cpp: `struct usb_device`, the globals of the driver, the plug-in as a record of
--   answers, and steps that change the driver's devices and the world.
-- Usb/Descriptors: `usb_configure_mux_interface` on the bytes of a configuration.
-- Usb/Devices, Usb/Teardown, Usb/Threads, Usb/Configure, Usb/Attach: the list of USB devices,
--   `usb_disconnect`, the start of the threads, `usb_configure_device`, `usb_add_pending_device`.
-- Usb/Commands: the queue of device commands, `usb_process`.
-- Usb/Transfer, Usb/Transfer/Writing: `usb_send`, `usb_write_thread_proc`.
-- Usb/Reading: `usb_start_read`, `usb_get_read_result`, and the steps of `usb_read_thread_proc` and of
--   the main thread in `device_process_sockets`, in any order.
-- Preflight: preflight.cpp: the worker that pairs with a new device: its calls, and the library
--   libimobiledevice as a record of answers. Preflight/Callback: `np_callback` and
--   `preflight_device_remove_cb`, which other threads run. Preflight/Session, Preflight/Polling,
--   Preflight/Trust, Preflight/DeviceAdd: `preflight_worker_handle_device_add`, from `retry` on.
--   Preflight/Account, Preflight/Shown: what can be read off the calls of a worker, and the reasons
--   for a report that the device is there.
-- Device/Sockets: `device_accept_socket`, `device_add_fds`, `device_process_sockets`.
-- Main: usbmuxd.cpp: `CreateFdSets`, `GetCurrentIterationTimeout`, the loop of `MainThreadProc`, over
--   a list of passes that say what Windows answered. Main/Control: `usbmuxd_Start`,
--   `usbmuxd_Shutdown` and the other functions that the library exports.
-- StringUtil: `HexStringToBufferA`, `BufferToHexStringA`.
-- Examples: a host and small worlds, at which the theorems are applied.
--
-- Fields of w bits wrap around at 2 ^ w. `next_device_id` is an `int`: one that grows past its range is
-- a fault. `client_close` and `connection_teardown` call one another: a client that is closed is
-- marked dead first, so that two levels are enough. `find_sport` gets 65536 rounds and
-- `get_next_device_id` one more than there are devices, each enough to find a free number. The write
-- loop of `connection_teardown` gets a round for each byte that waits. The loop over a transfer takes
-- its number of rounds as an argument.
--
-- The preflight worker gets a number of passes from `retry` and of rounds of the wait for the user:
-- one more than how often a pairing record can be removed, and one more than the rounds after which
-- the device is gone, are enough.
--
-- The files of conf.cpp are a table by paths. The platform says which paths name one file; a write
-- or a removal shows under each of them. `usbmuxd_Shutdown` is told whether a thread that it kills
-- holds a critical section that the clean-up enters; then the call never returns.
--
-- Not modelled: allocation that fails, but for the `realloc` that `send_pkt` tests; locks otherwise
-- (each operation is one step), and a thread that `TerminateThread` could not end; the contents of
-- uninitialised memory (an access is a fault); logging; `CreateListenSocket` and the other wrappers
-- of Windows (SocketUtil.h, WindowsUtil.cpp, what StringUtil.cpp does by calls of Windows); the host
-- process (usbmuxdHost), the set-up of the service (usbmuxdMain.cpp) and the queue of
-- readerwriterqueue, a copy of another project's library. The preflight worker, conf.cpp and
-- client.cpp meet at named answers, which may depend on all calls before, since other threads run
-- in between; whether `realloc` finds memory depends on the world.
pub mod Prelude
pub mod Collection
pub mod World
pub mod Wire
pub mod Device
pub mod Client
pub mod Config
pub mod Usb
pub mod Preflight
pub mod Main
pub mod StringUtil
pub mod Examples
