-- ===== src/Examples/UsbExamples.antt =====
-- The theorems about usb-mce.cpp at a concrete plug-in.
use usbmuxd_plugable_usb_msv.Prelude.{
  ℕ, ◌+◌, ◌≡◌, ◌⊎◌, refl, List, [], ◌∷◌, ◌++◌, true, false, none, some, arith, replicate, ℤ, pos,
  negsuc,
}
use usbmuxd_plugable_usb_msv.World.Step
use usbmuxd_plugable_usb_msv.Usb.{monitor_always, no_endpoints, completed, stopped, Plugin}
use usbmuxd_plugable_usb_msv.Usb.Descriptors.{missing, overread, usb_configure_mux_interface}
use usbmuxd_plugable_usb_msv.Usb.Descriptors.Walk.{
  Descriptor, interface, endpoint, other, bytes_of, search, usb_configure_mux_interface_lem,
}
use usbmuxd_plugable_usb_msv.Usb.Attach.{source_manual}
use usbmuxd_plugable_usb_msv.Usb.Commands.{command_set_monitor, PendingCommand, Driver, usb_process}
use usbmuxd_plugable_usb_msv.Usb.Commands.Queue.{append_all, handle_all, usb_process_lem}
use usbmuxd_plugable_usb_msv.Usb.Transfer.{Tx, process_exited, returned, usb_send}
use usbmuxd_plugable_usb_msv.Usb.Transfer.Ownership.{held, issued, Grows, usb_send_lem}
use usbmuxd_plugable_usb_msv.Usb.Transfer.Writing.{Writer, stop_writing}
use usbmuxd_plugable_usb_msv.Usb.Transfer.Writing.Cleared.{stop_writing_lem}
use usbmuxd_plugable_usb_msv.Collection
use usbmuxd_plugable_usb_msv.World.{update}
use usbmuxd_plugable_usb_msv.World.Step.Ends.{Ends}
use usbmuxd_plugable_usb_msv.Usb.{TxElement, monitor_disable, usb_alive, UsbDevice, Usb}
use usbmuxd_plugable_usb_msv.Usb.Devices.{is_valid_device}
use usbmuxd_plugable_usb_msv.Usb.Attach.{source_monitor, usb_add_pending_device}
use usbmuxd_plugable_usb_msv.Usb.Attach.Occupied.{usb_add_pending_device_occupied}
use usbmuxd_plugable_usb_msv.World.Step.{done}
use usbmuxd_plugable_usb_msv.Usb.Teardown.{usb_disconnect}
use usbmuxd_plugable_usb_msv.Usb.Teardown.Outcome.{
  RunsOn, HasEnded, IsUntouched, IsGone, IsReset, usb_disconnect_lem,
}
use usbmuxd_plugable_usb_msv.Usb.Reading.{
  Rx, at_reply, at_data, read_pending, Reach, start, later, reader_starts, transfer_completes,
  reader_tells, main_hears, main_gets, new_rx, after_start, usb_start_read, arrive,
  usb_get_read_result,
}
use usbmuxd_plugable_usb_msv.Usb.Reading.Handover.{handover_exclusive}
use usbmuxd_plugable_usb_msv.Examples.{calm_host, phone, session, waiting, world_of}

-- A plug-in whose calls go well, with no port to open.
abbrev pub calm_plugin : Plugin
calm_plugin = record {
  open_by_name = λ t location. none;
  device_descriptor = λ t port. none;
  string_descriptor = λ t port i. none;
  configuration_descriptor_size = λ t port i. 0;
  configuration_descriptor = λ t port i. none;
  select_configuration = λ t port i. true;
  transfer = λ t dev buf. completed;
  transfer_result = λ t dev. true;
  register_notification = λ t. true;
  create_event = λ t. true;
  connect_socket = λ t. some 5;
  set_no_delay = λ t s. true;
  send_id = λ t s id. true;
  create_thread = λ t. true;
  reader_ends = λ t. stopped;
  writer_ends = λ t. true;
}

-- The mux interface of a phone behind another interface.
abbrev phone_descriptors : List Descriptor
phone_descriptors =
    interface 0 0 1 6 1 1 0
    ∷ endpoint 0x81 2 0 2 0
    ∷ other 0x24 (1 ∷ [])
    ∷ interface 1 0 2 255 254 2 0
    ∷ endpoint 0x04 2 0 2 0
    ∷ endpoint 0x85 2 0 2 0
    ∷ []

usb_configure_mux_interface_lem_example :
    (usb_configure_mux_interface no_endpoints (replicate 9 0 ++ bytes_of phone_descriptors)
      ≡ search (λ _. overread) false no_endpoints phone_descriptors)
    × (usb_configure_mux_interface no_endpoints
          (replicate 9 0 ++ (bytes_of phone_descriptors ++ (0 ∷ 7 ∷ [])))
        ≡ search missing false no_endpoints phone_descriptors)
usb_configure_mux_interface_lem_example =
    usb_configure_mux_interface_lem (replicate 9 0) (7 ∷ []) no_endpoints phone_descriptors refl
      ((λ e. omega (arith, e)), (λ e. omega (arith, e)), tt)

-- A device with a writing thread that has sent nothing yet.
abbrev idle_tx : Tx
idle_tx = record {
  q = [];
  pool = [];
  thread = true;
  tx_max_packet_size = 512;
  allocated = 0;
  freed = [];
  calls = [];
}

usb_send_lem_example :
    (usb_send calm_plugin 7 (1 ∷ 2 ∷ []) idle_tx ≡ process_exited)
    ⊎ ((r : ℤ) × (next : Tx) × (usb_send calm_plugin 7 (1 ∷ 2 ∷ []) idle_tx ≡ returned r next)
        × ((x : ℕ) → held x next + issued x idle_tx ≡ held x idle_tx + issued x next)
        × (((r ≡ pos 0)
              × (◌≡◌ true true)
              × (next.freed ≡ [])
              × ((packet : TxElement) × (packet.buffer ≡ some (1 ∷ 2 ∷ []))
                  × Grows (packet ∷ []) next.q))
            ⊎ (((r ≡ pos 0) ⊎ (r ≡ negsuc 0))
                × (next.freed ≡ (1 ∷ 2 ∷ []) ∷ [])
                × Grows [] next.q)))
usb_send_lem_example = usb_send_lem calm_plugin 7 (1 ∷ 2 ∷ []) idle_tx (λ e. omega (arith, e))

-- The command to monitor location 3 for good.
abbrev monitor_three : PendingCommand
monitor_three = record {
  type = command_set_monitor;
  source = source_manual;
  device_location = 3;
  completion_event = some 8;
  monitor = monitor_always;
}

-- The driver of a program that has just started, initialised.
abbrev started_usb : Usb
started_usb = record {
  usb_devices = λ _. none;
  usb_list = record { list = replicate 8 none };
  next_usb_device_id = 1;
  next_usb_address = 1;
  cookie = false;
  calls = [];
}

abbrev new_driver : Driver
new_driver = record { usb = started_usb; pending = [] }

usb_process_lem_example :
    usb_process calm_plugin calm_host
      (append_all (monitor_three ∷ []) new_driver)
      (world_of phone session waiting)
    ≡ Step.◌>>=◌
        (handle_all calm_plugin calm_host (monitor_three ∷ []) started_usb)
        (λ x. Step.pure (pos 0, record { usb = x; pending = [] }))
        (world_of phone session waiting)
usb_process_lem_example =
    usb_process_lem calm_plugin calm_host (monitor_three ∷ []) new_driver
      (world_of phone session waiting)

-- A transfer of one byte, at the main thread.
abbrev handled_rx : Rx
handled_rx = record {
  buffer = 1 ∷ [];
  data_size = 1;
  is_pending = false;
  event = false;
  to_main = 0;
  to_reader = 0;
  reader = at_reply;
  main = at_data (1 ∷ []);
  received = (1 ∷ []) ∷ [];
  delivered = [];
}

handled_rx_reached : Reach handled_rx
unfolding new_rx after_start usb_start_read arrive usb_get_read_result
handled_rx_reached =
    later
      (later
        (later
          (later (later start (reader_starts read_pending refl)) (transfer_completes (1 ∷ []) refl))
          (reader_tells refl refl))
        (main_hears 0 refl refl))
      (main_gets refl)

handover_exclusive_example :
    (handled_rx.is_pending ≡ false)
    × (handled_rx.event ≡ false)
    × (handled_rx.to_main ≡ 0)
    × (handled_rx.received ≡ (1 ∷ []) ∷ handled_rx.delivered)
handover_exclusive_example = handover_exclusive handled_rx (1 ∷ []) handled_rx_reached refl

-- A device with an open port at location 3.
abbrev present : UsbDevice
present = record {
  id = 1;
  location = 3;
  port = record { port_id = 7; vid = 0x5ac; pid = 0x12a8; turbo = false };
  monitor = monitor_always;
  state = usb_alive;
  serial = 65 ∷ [];
  endpoints = record { ep_in = 0x85; ep_out = 4; tx_max_packet_size = 512 };
  rx_data_size = 0;
  rx_thread = true;
  thread_stop_event = true;
  data_events_socket = some 5;
  write_thread_stop = false;
  tx_thread = false;
  device_ready_event = none;
}

abbrev pub one_device : Usb
one_device = record {
  usb_devices = update (λ _. none) 1 (some present);
  usb_list = record { list = some 1 ∷ none ∷ [] };
  next_usb_device_id = 2;
  next_usb_address = 2;
  cookie = true;
  calls = [];
}

usb_add_pending_device_occupied_example :
    Ends
      (λ r _. (r.0 ≡ negsuc 0) × (r.1 ≡ one_device))
      (usb_add_pending_device calm_plugin calm_host source_monitor 3 monitor_disable none one_device
        (world_of phone session waiting))
unfolding is_valid_device Collection.items Collection.taken
usb_add_pending_device_occupied_example =
    usb_add_pending_device_occupied calm_plugin calm_host source_monitor 3 monitor_disable none
      one_device [] [] 1 present (world_of phone session waiting) refl tt refl refl refl

usb_disconnect_lem_example :
    (v : Usb) × (usb_disconnect calm_plugin 1 false one_device (world_of phone session waiting)
      ≡ done (tt, v) (world_of phone session waiting))
    × (((◌≡◌ true true) × RunsOn stopped × IsUntouched one_device v)
        ⊎ (((◌≡◌ true false) ⊎ HasEnded stopped)
            × (((◌≡◌ false true) × IsGone 1 one_device v)
                ⊎ ((◌≡◌ false false) × IsReset 1 present one_device v))))
usb_disconnect_lem_example =
    usb_disconnect_lem calm_plugin 1 false present one_device (world_of phone session waiting) refl

-- Two transfers wait, and a structure of an earlier one is in the pool.
abbrev busy_tx : Tx
busy_tx = record idle_tx {
  q =
      record { buffer = some (1 ∷ []); overlapped = 1 }
      ∷ record { buffer = some (2 ∷ []); overlapped = 2 }
      ∷ [];
  pool = record { buffer = none; overlapped = 0 } ∷ [];
  allocated = 3;
}

stop_writing_lem_example :
    (w : Writer) × (stop_writing 7 1 busy_tx ≡ some w)
    × (w.tx.q ≡ [])
    × (w.tx.pool ≡ [])
    × (w.deleted ≡ 0 ∷ 1 ∷ [])
stop_writing_lem_example = stop_writing_lem 7 1 busy_tx (omega arith)
