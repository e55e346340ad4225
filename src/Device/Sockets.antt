-- ===== src/Device/Sockets.antt =====
-- device.cpp: the socket on which the reading thread of a device says that data has come:
-- `device_accept_socket`, `device_add_fds`, `device_process_sockets`.
use usbmuxd_plugable_usb_msv.Prelude.{
  ℕ, List, [], ◌∷◌, Bool, Option, none, some, if◌then◌else◌, length, ℤ, pos, negsuc,
}
use usbmuxd_plugable_usb_msv.Collection
use usbmuxd_plugable_usb_msv.World.{Events, sock_closed, sock_sent, sock_received}
use usbmuxd_plugable_usb_msv.World.Host.{Host}
use usbmuxd_plugable_usb_msv.World.Step.{
  M, pure, ◌>>=◌, ◌>>◌, emit, get_world, when, load_device, put_device,
}
use usbmuxd_plugable_usb_msv.Usb.{Usb}
use usbmuxd_plugable_usb_msv.Usb.Devices.{usb_get_device_by_id}
use usbmuxd_plugable_usb_msv.Device.Mux.{find_usbdev, process_transfer}

-- What becomes of a connection to the devices' listening socket: `accept`, whether `setsockopt`
-- succeeds, and the four bytes that `recv` gives, if it gives them.
pub record DeviceAccept : Type 0 where
  pub accepted : Option ℕ
  pub no_delay : Bool
  pub usb_dev_id : Option ℕ

-- The socket is closed, with this result.
unfoldable pub turn_away : ℕ → ℤ → M ℤ
turn_away socket res = emit (sock_closed socket) >> pure res

-- `device_accept_socket` once the id of the USB device is known
unfoldable pub attach_socket : Usb → ℕ → ℕ → M ℤ
attach_socket u socket id = do
  (usb_dev, _) ← usb_get_device_by_id id u
  elim usb_dev [
    | none ↦ turn_away socket (negsuc 0)
    | some usbdev ↦ do
      w ← get_world
      found ← find_usbdev (Collection.items w.device_list) usbdev
      elim found [
        | none ↦ turn_away socket (negsuc 1)
        | some dev ↦ do
          d ← load_device dev
          put_device dev (record d { rx_data_events_socket = some socket })
          pure (pos 0)
      ]
  ]

-- `device_accept_socket`; -`RESULT_BADDEV` is -2.
unfoldable pub device_accept_socket : Usb → DeviceAccept → Bool → M ℤ
device_accept_socket u a reject_connection = elim a.accepted [
  | none ↦ pure (negsuc 0)
  | some socket ↦
      if reject_connection
      then turn_away socket (pos 0)
      else if a.no_delay
      then elim a.usb_dev_id [
        | none ↦ turn_away socket (negsuc 0)
        | some id ↦ attach_socket u socket id
      ]
      else turn_away socket (negsuc 0)
]

-- The sockets of the devices at these addresses, in order.
unfoldable pub device_sockets : List ℕ → M (List ℕ)
device_sockets [] = pure []
device_sockets (p ∷ ps) = do
  d ← load_device p
  sockets ← device_sockets ps
  pure (elim d.rx_data_events_socket [ none ↦ sockets | some s ↦ s ∷ sockets ])

-- `device_add_fds`: the descriptors to read from, and their number.
unfoldable pub device_add_fds : M (List ℕ × ℕ)
device_add_fds = do
  w ← get_world
  sockets ← device_sockets (Collection.items w.device_list)
  pure (sockets, length sockets)

-- What a device has for the main thread: whether the byte of the reading thread can be read, what
-- `usb_get_read_result` gives, and whether the byte of the main thread can be sent.
pub record DeviceData : Type 0 where
  pub is_told : Bool
  pub transfer : Option (List ℕ)

module _ (host : Host) (data_of : ℕ → DeviceData) where
  -- The body of `device_process_sockets` for a socket that can be read. The loop over the bytes has
  -- a round for each of them.
  unfoldable pub process_socket : ℕ → ℕ → M (Unit {0})
  process_socket usbdev socket = do
    emit (sock_received socket 1)
    if (data_of usbdev).is_told
        then elim (data_of usbdev).transfer [
          | none ↦ pure tt
          | some bytes ↦ do
            process_transfer host (length bytes) usbdev bytes
            emit (sock_sent socket (1 ∷ []))
        ]
        else pure tt

  -- One device of the loop, for what `select` said of each descriptor
  unfoldable pub process_device : (ℕ → Events) → ℕ → M (Unit {0})
  process_device selected p = do
    d ← load_device p
    elim d.rx_data_events_socket [
      | none ↦ pure tt
      | some socket ↦ when (selected socket).pollin (process_socket d.usbdev socket)
    ]

  unfoldable pub process_devices : (ℕ → Events) → List ℕ → M (Unit {0})
  process_devices selected [] = pure tt
  process_devices selected (p ∷ ps) = process_device selected p >> process_devices selected ps

  -- `device_process_sockets`
  unfoldable pub device_process_sockets : (ℕ → Events) → M (Unit {0})
  device_process_sockets selected = do
    w ← get_world
    process_devices selected (Collection.items w.device_list)
