-- ===== src/Device/Teardown.antt =====
-- device.cpp and client.cpp: `connection_teardown`, `client_close` and `device_abort_connect`, which
-- call one another; `update_connection` and `send_tcp_ack`.
pub mod Search
pub mod Close
pub mod Steps
pub mod DoubleClose
pub mod Halting
use usbmuxd_plugable_usb_msv.Prelude.{
  ℕ, zero, suc, List, [], ◌∷◌, Bool, true, false, not, ◌&&◌, Option, none, some, ltb, ◌==◌,
  if◌then◌else◌, take, ℤ, pos, negsuc, is_neg, is_nonpos, pos_part,
}
use usbmuxd_plugable_usb_msv.Collection
use usbmuxd_plugable_usb_msv.Wire.{th_rst, th_ack_flag}
use usbmuxd_plugable_usb_msv.World.{
  MuxDevState, muxdev_dead, MuxConnState, conn_connecting, conn_refused, conn_dying, conn_dead,
  ClientState, client_connecting1, client_connecting2, client_dead, sock_closed,
}
use usbmuxd_plugable_usb_msv.World.Host.{Host}
use usbmuxd_plugable_usb_msv.World.Step.{
  M, pure, ◌>>=◌, ◌>>◌, done, exhausted, emit, get_world, require, when, load_conn, put_conn,
  load_device, put_device, load_client, put_client, free_conn, free_client,
}
use usbmuxd_plugable_usb_msv.Client.Reply.{
  client_set_events, client_write, client_notify_connect, result_connrefused,
}
use usbmuxd_plugable_usb_msv.Device.Packet.{send_tcp}
use usbmuxd_plugable_usb_msv.Device.Window.{refresh, drop_written}

abbrev pub is_conn_dead : MuxConnState → Bool
is_conn_dead conn_dead = true
is_conn_dead _ = false

abbrev pub is_dev_dead : MuxDevState → Bool
is_dev_dead muxdev_dead = true
is_dev_dead _ = false

-- `conn->state != CONN_DYING && conn->state != CONN_REFUSED`
abbrev pub is_open_for_rst : MuxConnState → Bool
is_open_for_rst conn_dying = false
is_open_for_rst conn_refused = false
is_open_for_rst _ = true

-- `conn->state == CONN_REFUSED || conn->state == CONN_CONNECTING`
abbrev pub is_unanswered : MuxConnState → Bool
is_unanswered conn_refused = true
is_unanswered conn_connecting = true
is_unanswered _ = false

-- `client->state == CLIENT_CONNECTING1 || client->state == CLIENT_CONNECTING2`
abbrev pub is_mid_connect : ClientState → Bool
is_mid_connect client_connecting1 = true
is_mid_connect client_connecting2 = true
is_mid_connect _ = false

abbrev same_client : Option ℕ → ℕ → Bool
same_client none q = false
same_client (some p) q = p == q

-- The first device of the list with this id.
unfoldable pub find_device : List ℕ → ℕ → M (Option ℕ)
find_device [] id = pure none
find_device (p ∷ ps) id = do
  d ← load_device p
  if d.id == id then pure (some p) else find_device ps id

-- `get_mux_device_for_id`
unfoldable pub get_mux_device_for_id : ℕ → M (Option ℕ)
get_mux_device_for_id id = do w ← get_world; find_device (Collection.items w.device_list) id

-- The first connection of the list that belongs to this client.
unfoldable pub find_conn_of : List ℕ → ℕ → M (Option ℕ)
find_conn_of [] client = pure none
find_conn_of (p ∷ ps) client = do
  c ← load_conn p
  if same_client c.client client then pure (some p) else find_conn_of ps client

-- The inner loop of `get_mux_connection`, over the connections of the device that was found.
unfoldable pub find_conn_at : Option ℕ → ℕ → M (Option ℕ)
find_conn_at none client = pure none
find_conn_at (some p) client = do
  d ← load_device p
  conns ← require d.connections
  find_conn_of (Collection.items conns) client

-- `get_mux_connection`
unfoldable pub get_mux_connection : ℕ → ℕ → M (Option ℕ)
get_mux_connection device_id client = do
  found ← get_mux_device_for_id device_id
  find_conn_at found client

module _ (host : Host) where
  -- The loop of `connection_teardown` that hands the client what is left for it.
  unfoldable pub flush_client : ℕ → ℕ → ℕ → M (Unit {0})
  flush_client zero conn client w = exhausted
  flush_client (suc fuel) conn client w =
      (do
        c ← load_conn conn
        size ← client_write host client (take c.ib_size c.ib_buf)
        if is_nonpos size
            then pure tt
            else (put_conn conn (drop_written c (pos_part size))
                >> (if pos_part size == c.ib_size then pure tt else flush_client fuel conn client)))
        w

  -- The part of `connection_teardown` for a connection with a client.
  unfoldable pub drop_client : (ℕ → M (Unit {0})) → ℕ → ℕ → M (Unit {0})
  drop_client close conn client = do
    c ← load_conn conn
    if is_unanswered c.state
        then (client_notify_connect host client result_connrefused >> pure tt)
        else (do
          put_conn conn (record c { state = conn_dead })
          when (c.events.pollout && ltb 0 c.ib_size) (flush_client (suc c.ib_size) conn client)
          close client)

  -- The end of `connection_teardown`: the connection leaves its device and is freed.
  unfoldable pub release_conn : ℕ → M (Unit {0})
  release_conn conn = do
    c ← load_conn conn
    d ← load_device c.dev
    conns ← require d.connections
    put_device c.dev (record d { connections = some (Collection.remove conns conn) })
    free_conn conn

  -- The RST of `connection_teardown`; that it could not be sent is only logged.
  unfoldable pub send_rst : ℕ → M (Unit {0})
  send_rst conn = do
    c ← load_conn conn
    d ← load_device c.dev
    when (not (is_dev_dead d.state) && is_open_for_rst c.state)
        (send_tcp host conn th_rst [] >> pure tt)

  -- `connection_teardown`, given how it closes a client.
  unfoldable pub teardown_with : (ℕ → M (Unit {0})) → ℕ → M (Unit {0})
  teardown_with close conn = do
    c ← load_conn conn
    if is_conn_dead c.state then pure tt else (do
      send_rst conn
      elim c.client [ none ↦ pure tt | some client ↦ drop_client close conn client ]
      release_conn conn)

  -- `device_abort_connect`, given how it tears a connection down.
  unfoldable pub abort_with : (ℕ → M (Unit {0})) → ℕ → ℕ → M (Unit {0})
  abort_with teardown device_id client = do
    found ← get_mux_connection device_id client
    elim found [ none ↦ pure tt | some conn ↦ teardown conn ]

  -- The end of `client_close`: the socket is closed, the client leaves the list and is freed.
  unfoldable pub release_client : ℕ → M (Unit {0})
  release_client client = do
    c ← load_client client
    emit (sock_closed c.fd)
    (λ w. done tt (record w { client_list = Collection.remove w.client_list client }))
    free_client client

  -- `client_close`, given how it tears a connection down.
  unfoldable pub close_with : (ℕ → M (Unit {0})) → ℕ → M (Unit {0})
  close_with teardown client = do
    c ← load_client client
    when (is_mid_connect c.state) (do
      put_client client (record c { state = client_dead })
      abort_with teardown c.connect_device client)
    release_client client

  -- `client_close` with a bound on how often it calls itself through `connection_teardown`.
  unfoldable pub close_within : ℕ → ℕ → M (Unit {0})
  close_within zero client w = exhausted
  close_within (suc fuel) client w = close_with (teardown_with (close_within fuel)) client w

  -- A client is marked dead before its connection is torn down, so two calls are enough.
  unfoldable pub client_close : ℕ → M (Unit {0})
  client_close client = close_within 2 client

  unfoldable pub connection_teardown : ℕ → M (Unit {0})
  connection_teardown conn = teardown_with (close_within 2) conn

  -- `device_abort_connect`
  unfoldable pub device_abort_connect : ℕ → ℕ → M (Unit {0})
  device_abort_connect device_id client = abort_with connection_teardown device_id client

  -- `update_connection`
  unfoldable pub update_connection : ℕ → M (Unit {0})
  update_connection conn = do
    c ← load_conn conn
    put_conn conn (refresh c)
    client_set_events c.client (refresh c).events
    pure tt

  -- `send_tcp_ack`
  unfoldable pub send_tcp_ack : ℕ → M ℤ
  send_tcp_ack conn = do
    res ← send_tcp host conn th_ack_flag []
    if is_neg res
        then (connection_teardown conn >> pure (negsuc 0))
        else (update_connection conn >> pure (pos 0))
