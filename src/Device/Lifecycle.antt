-- ===== src/Device/Lifecycle.antt =====
-- device.cpp: devices come and go, and what is asked of the list of devices: `device_add`,
-- `device_remove`, `device_set_visible`, `device_get_list`, the timeouts, `device_kill_connections`.
pub mod Timers
pub mod Listing
use usbmuxd_plugable_usb_msv.Prelude.{
  ℕ, zero, suc, ◌+◌, ◌-◌, ◌%◌, ◌^◌, List, [], ◌∷◌, Bool, true, false, ◌&&◌, ◌||◌, not, Option, none,
  some, ltb, ◌==◌, if◌then◌else◌, length, get_or, ℤ, pos, is_neg,
}
use usbmuxd_plugable_usb_msv.Collection
use usbmuxd_plugable_usb_msv.Collection.{Collection}
use usbmuxd_plugable_usb_msv.Wire.{VersionHeader, mux_proto_version, encode_version}
use usbmuxd_plugable_usb_msv.World.{
  MuxDevice, muxdev_init, MuxConnection, MuxConnState, conn_connected, device_ready, DeviceInfo,
}
use usbmuxd_plugable_usb_msv.World.Host.{Host}
use usbmuxd_plugable_usb_msv.World.Step.{
  M, pure, ◌>>=◌, ◌>>◌, done, emit, get_world, require, when, load_conn, load_device, put_device,
  free_device, fresh_address,
}
use usbmuxd_plugable_usb_msv.Device.Packet.{send_packet, read_clock}
use usbmuxd_plugable_usb_msv.Device.Teardown.{
  get_mux_device_for_id, connection_teardown, send_tcp_ack,
}
use usbmuxd_plugable_usb_msv.Device.Ports.{get_next_device_id}
use usbmuxd_plugable_usb_msv.Device.Input.{is_active}
use usbmuxd_plugable_usb_msv.Device.Mux.{info_of, is_init}

-- `ACK_TIMEOUT`
abbrev pub ack_timeout : ℕ
ack_timeout = 30

abbrev is_established : MuxConnState → Bool
is_established conn_connected = true
is_established _ = false

-- `vh` of `device_add`
abbrev pub version_request : VersionHeader
version_request = record { major = 1; minor = 0; padding = 0 }

-- The device that `device_add` fills in. `connections` and the sequence numbers stay as `malloc`
-- left them; the numbers are set before a packet carries them.
unfoldable pub new_device : ℕ → ℕ → MuxDevice
new_device usbdev id = record {
  usbdev = usbdev;
  id = id;
  state = muxdev_init;
  visible = false;
  connections = none;
  next_sport = 1;
  pktbuf = [];
  pktlen = 0;
  preflight_cb_data = none;
  version = 0;
  rx_seq = 0;
  tx_seq = 0;
  rx_data_events_socket = none;
  is_preflight_worker_running = false;
}

-- `device_init`
unfoldable pub device_init : M (Unit {0})
device_init w = done tt (record w { device_list = Collection.init; next_device_id = 1 })

-- Does the connection wait for an acknowledgement that can go out?
unfoldable pub awaits_ack : MuxConnection → Bool
awaits_ack c = is_established c.state && c.ack_pending

-- `device_set_visible`
unfoldable pub device_set_visible : ℕ → M (Unit {0})
device_set_visible device_id = do
  found ← get_mux_device_for_id device_id
  elim found [
    | none ↦ pure tt
    | some p ↦ do
      d ← load_device p
      put_device p (record d { visible = true })
      emit (device_ready d.usbdev)
  ]

-- `device_set_preflight_cb_data`
unfoldable pub device_set_preflight_cb_data : ℕ → Option ℕ → M (Unit {0})
device_set_preflight_cb_data device_id cb_data = do
  found ← get_mux_device_for_id device_id
  elim found [
    | none ↦ pure tt
    | some p ↦ do d ← load_device p; put_device p (record d { preflight_cb_data = cb_data })
  ]

-- `device_preflight_finished`
unfoldable pub device_preflight_finished : ℕ → M (Unit {0})
device_preflight_finished device_id = do
  found ← get_mux_device_for_id device_id
  elim found [
    | none ↦ pure tt
    | some p ↦ do d ← load_device p; put_device p (record d { is_preflight_worker_running = false })
  ]

-- `device_exists`
unfoldable pub device_exists : ℕ → M Bool
device_exists device_id = do
  found ← get_mux_device_for_id device_id
  elim found [ none ↦ pure false | some p ↦ pure true ]

-- The test of `device_get_count` and `device_get_list`.
unfoldable pub is_listed : Bool → MuxDevice → Bool
is_listed include_hidden d = is_active d.state && (include_hidden || d.visible)

-- The loop of `device_get_count`
unfoldable pub count_devices : Bool → List ℕ → M ℕ
count_devices include_hidden [] = pure 0
count_devices include_hidden (p ∷ ps) = do
  d ← load_device p
  n ← count_devices include_hidden ps
  pure (if is_listed include_hidden d then suc n else n)

-- `device_get_count`
unfoldable pub device_get_count : Bool → M ℕ
device_get_count include_hidden = do
  w ← get_world
  count_devices include_hidden (Collection.items (Collection.copy w.device_list))

-- `oldest` after the connections at these addresses
unfoldable pub oldest_conn : ℕ → List ℕ → M ℕ
oldest_conn oldest [] = pure oldest
oldest_conn oldest (p ∷ ps) = do
  c ← load_conn p
  oldest_conn (if awaits_ack c && ltb c.last_ack_time oldest then c.last_ack_time else oldest) ps

-- `oldest` after the devices at these addresses
unfoldable pub oldest_device : ℕ → List ℕ → M ℕ
oldest_device oldest [] = pure oldest
oldest_device oldest (p ∷ ps) = do
  d ← load_device p
  next ←
      (if is_active d.state
        then (do conns ← require d.connections; oldest_conn oldest (Collection.items conns))
        else pure oldest)
  oldest_device next ps

-- What `device_get_timeout` returns at the time `ct`; `uint64_t` arithmetic.
unfoldable pub timeout_at : ℕ → ℕ → ℕ
timeout_at ct oldest =
    let waited = (ct + 2 ^ 64 - oldest) % 2 ^ 64 in
    if oldest == 2 ^ 64 - 1
    then 100000
    else if ltb ack_timeout waited
    then 0
    else ack_timeout - waited

-- `FOREACH` over the connections of a device by a body that may take some away: each slot is read
-- when the loop comes to it.
unfoldable pub each_slot : ℕ → ℕ → ℕ → (ℕ → M (Unit {0})) → M (Unit {0})
each_slot zero i dev body = pure tt
each_slot (suc left) i dev body = do
  d ← load_device dev
  conns ← require d.connections
  elim (get_or conns.list i none) [ none ↦ pure tt | some p ↦ body p ]
  each_slot left (i + 1) dev body

unfoldable pub each_conn : ℕ → (ℕ → M (Unit {0})) → M (Unit {0})
each_conn dev body = do
  d ← load_device dev
  conns ← require d.connections
  each_slot (length conns.list) 0 dev body

module _ (host : Host) where
  -- The loop of `device_get_list`
  unfoldable pub list_devices : Bool → List ℕ → M (List DeviceInfo)
  list_devices include_hidden [] = pure []
  list_devices include_hidden (p ∷ ps) = do
    d ← load_device p
    rest ← list_devices include_hidden ps
    pure (if is_listed include_hidden d then info_of host d ∷ rest else rest)

  -- `device_get_list`
  unfoldable pub device_get_list : Bool → M (List DeviceInfo)
  device_get_list include_hidden = do
    w ← get_world
    list_devices include_hidden (Collection.items w.device_list)

  -- `device_add`: the device is listed only when the version request went out.
  unfoldable pub device_add : ℕ → M ℤ
  device_add usbdev = do
    id ← get_next_device_id
    dev ← fresh_address
    put_device dev (new_device usbdev id)
    res ← send_packet host dev mux_proto_version (encode_version version_request) []
    if is_neg res then (free_device dev >> pure res) else (do
      (λ w. done tt (record w { device_list = Collection.add w.device_list dev }))
      pure (pos 0))

  -- `device_get_timeout`
  unfoldable pub device_get_timeout : M ℕ
  device_get_timeout = do
    w ← get_world
    oldest ← oldest_device (2 ^ 64 - 1) (Collection.items w.device_list)
    ct ← read_clock host
    pure (timeout_at ct oldest)

  -- `(ct - conn->last_ack_time) > ACK_TIMEOUT` for a connection that awaits an acknowledgement
  unfoldable pub is_overdue : ℕ → MuxConnection → Bool
  is_overdue ct c = awaits_ack c && ltb ack_timeout ((ct + 2 ^ 64 - c.last_ack_time) % 2 ^ 64)

  -- The connections of one device in `device_check_timeouts`
  unfoldable pub check_conn : ℕ → ℕ → M (Unit {0})
  check_conn ct conn = do
    c ← load_conn conn
    when (is_overdue ct c) (send_tcp_ack host conn >> pure tt)

  unfoldable pub check_devices : ℕ → List ℕ → M (Unit {0})
  check_devices ct [] = pure tt
  check_devices ct (p ∷ ps) = do
    d ← load_device p
    when (is_active d.state) (each_conn p (check_conn ct))
    check_devices ct ps

  -- `device_check_timeouts`
  unfoldable pub device_check_timeouts : M (Unit {0})
  device_check_timeouts = do
    ct ← read_clock host
    w ← get_world
    check_devices ct (Collection.items w.device_list)

  unfoldable pub kill_devices : List ℕ → M (Unit {0})
  kill_devices [] = pure tt
  kill_devices (p ∷ ps) = do
    d ← load_device p
    when (not (is_init d.state)) (each_conn p (connection_teardown host))
    kill_devices ps

  -- `device_kill_connections`
  unfoldable pub device_kill_connections : M (Unit {0})
  device_kill_connections = do w ← get_world; kill_devices (Collection.items w.device_list)
