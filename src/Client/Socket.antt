-- ===== src/Client/Socket.antt =====
-- client.cpp: a client's socket: `process_recv`, `process_send`, `client_process`, `client_accept`,
-- `client_shutdown`, `client_add_fds`.
pub mod Flow
pub mod Halting
use usbmuxd_plugable_usb_msv.Prelude.{
  ℕ, zero, suc, ◌+◌, ◌-◌, ◌%◌, ◌^◌, List, [], ◌∷◌, ◌++◌, Bool, true, false, ◌||◌, Option, none,
  some, ltb, ◌==◌, if◌then◌else◌, length, take, drop, get_or, is_nonpos, pos_part,
}
use usbmuxd_plugable_usb_msv.Collection
use usbmuxd_plugable_usb_msv.World.{
  MuxClient, client_command as client_in_command, client_connected, Events, no_events, sock_sent,
  sock_received, sock_closed,
}
use usbmuxd_plugable_usb_msv.World.Host.{Host}
use usbmuxd_plugable_usb_msv.World.Step.{
  M, pure, ◌>>=◌, ◌>>◌, done, emit, get_world, require, when, load_client, put_client,
  fresh_address,
}
use usbmuxd_plugable_usb_msv.Device.Teardown.{client_close}
use usbmuxd_plugable_usb_msv.Device.Input.{device_client_process}
use usbmuxd_plugable_usb_msv.Client.Reply.{header_size, is_connected, is_connecting2}
use usbmuxd_plugable_usb_msv.Client.Command.{Header, read_header}
use usbmuxd_plugable_usb_msv.Client.Dispatch.{client_command}

-- `CMD_BUF_SIZE` and `REPLY_BUF_SIZE`
abbrev pub cmd_buf_size : ℕ
cmd_buf_size = 0x10000

abbrev pub reply_buf_size : ℕ
reply_buf_size = 0x10000

-- The client that `client_accept` fills in.
unfoldable pub new_client : ℕ → MuxClient
new_client fd = record {
  fd = fd;
  ob_buf = some [];
  ob_size = 0;
  ob_capacity = reply_buf_size;
  ib_buf = some [];
  ib_size = 0;
  ib_capacity = cmd_buf_size;
  events = record { pollin = true; pollout = false };
  devents = no_events;
  connect_tag = 0;
  connect_device = 0;
  state = client_in_command;
  proto_version = 0;
}

-- `client_init`
unfoldable pub client_init : M (Unit {0})
client_init w = done tt (record w { client_list = Collection.init })

-- `client_accept`, for what `accept` returned and whether the socket could be set up. The result
-- is the descriptor, 0 for a connection that was turned away, nothing for an error.
unfoldable pub client_accept : Option ℕ → Bool → Bool → M (Option ℕ)
client_accept none reject_connection set_up = pure none
client_accept (some cfd) true set_up = emit (sock_closed cfd) >> pure (some 0)
client_accept (some cfd) false false = emit (sock_closed cfd) >> pure none
client_accept (some cfd) false true = do
  client ← fresh_address
  put_client client (new_client cfd)
  (λ w. done tt (record w { client_list = Collection.add w.client_list client }))
  pure (some cfd)

-- What `process_send` makes of a client whose socket took `res` bytes of its output.
unfoldable pub after_send : MuxClient → ℕ → List ℕ → MuxClient
after_send c res old =
    if res == c.ob_size
    then (if is_connecting2 c.state
        then record c { ob_size = 0; state = client_connected; events = c.devents; ob_buf = none }
        else record c { ob_size = 0; events = record (c.events) { pollout = false } })
    else record c { ob_size = (c.ob_size + 2 ^ 32 - res) % 2 ^ 32; ob_buf = some (drop res old) }

-- `n` more bytes behind those in the in-buffer
unfoldable pub add_input : MuxClient → List ℕ → List ℕ → MuxClient
add_input c old bs = record c {
  ib_buf = some (take c.ib_size old ++ bs);
  ib_size = (c.ib_size + length bs) % 2 ^ 32;
}

module _ (host : Host) where
  -- `process_send`
  unfoldable pub process_send : ℕ → M (Unit {0})
  process_send client = do
    c ← load_client client
    if c.ob_size == 0
        then put_client client (record c { events = record (c.events) { pollout = false } })
        else (do
          old ← require c.ob_buf
          w ← get_world
          let res = host.send w.trace c.fd (take c.ob_size old)
          emit (sock_sent c.fd (take (pos_part res) (take c.ob_size old)))
          if is_nonpos res
              then client_close host client
              else put_client client (after_send c (pos_part res) old))

  -- A read of at most `len` bytes into the in-buffer; false if the client was closed for it.
  unfoldable pub receive : ℕ → ℕ → M Bool
  receive client len = do
    c ← load_client client
    old ← require c.ib_buf
    w ← get_world
    emit (sock_received c.fd len)
    elim (host.recv w.trace c.fd len) [
      | none ↦ client_close host client >> pure false
      | some [] ↦ client_close host client >> pure false
      | some (b ∷ bs) ↦ put_client client (add_input c old (b ∷ bs)) >> pure true
    ]

  -- The end of `process_recv`: the message is complete.
  unfoldable pub run_input : ℕ → Header → List ℕ → M (Unit {0})
  run_input client hdr payload = do
    client_command host client hdr payload
    c ← load_client client
    put_client client (record c { ib_size = 0 })

  -- `process_recv` once the header is there.
  unfoldable pub receive_body : ℕ → Bool → M (Unit {0})
  receive_body client did_read = do
    c ← load_client client
    buf ← require c.ib_buf
    (hdr, payload) ← require (read_header (take c.ib_size buf))
    if ltb c.ib_capacity hdr.length || ltb hdr.length header_size
        then client_close host client
        else if ltb c.ib_size hdr.length
        then (if did_read then pure tt else (do
          alive ← receive client (hdr.length - c.ib_size)
          when alive (do
            c₁ ← load_client client
            buf₁ ← require c₁.ib_buf
            (_, payload₁) ← require (read_header (take c₁.ib_size buf₁))
            if ltb c₁.ib_size hdr.length then pure tt else run_input client hdr payload₁)))
        else run_input client hdr payload

  -- `process_recv`
  unfoldable pub process_recv : ℕ → M (Unit {0})
  process_recv client = do
    c ← load_client client
    if ltb c.ib_size header_size
        then (do
          alive ← receive client (header_size - c.ib_size)
          when alive (do
            c₁ ← load_client client
            if ltb c₁.ib_size header_size then pure tt else receive_body client true))
        else receive_body client false

  -- One client of `client_process`, for what `select` said of its descriptor.
  unfoldable pub process_client : ℕ → Events → M (Unit {0})
  process_client client events = do
    c ← load_client client
    if is_connected c.state
        then when (events.pollin || events.pollout)
            (device_client_process host c.connect_device client events)
        else if events.pollin
        then process_recv client
        else when events.pollout (process_send client)

  -- `FOREACH` over the clients by a body that may take some away.
  unfoldable pub each_client : ℕ → ℕ → (ℕ → M (Unit {0})) → M (Unit {0})
  each_client zero i body = pure tt
  each_client (suc left) i body = do
    w ← get_world
    elim (get_or w.client_list.list i none) [ none ↦ pure tt | some p ↦ body p ]
    each_client left (i + 1) body

  -- `client_process`, for what `select` said of each descriptor.
  unfoldable pub client_process : (ℕ → Events) → M (Unit {0})
  client_process selected = do
    w ← get_world
    each_client (length w.client_list.list) 0
        λ p. do c ← load_client p; process_client p (selected c.fd)

  -- `client_shutdown`
  unfoldable pub client_shutdown : M (Unit {0})
  client_shutdown = do
    w ← get_world
    each_client (length w.client_list.list) 0 (client_close host)
    λ v. done tt (record v { client_list = Collection.free v.client_list })

-- The descriptors that `client_add_fds` adds for the clients at these addresses: to read from, to
-- write to, and how many clients there are.
unfoldable pub add_fds : List ℕ → M (List ℕ × List ℕ × ℕ)
add_fds [] = pure ([], [], 0)
add_fds (p ∷ ps) = do
  c ← load_client p
  (read_fds, write_fds, clients_count) ← add_fds ps
  pure (
    if c.events.pollin then c.fd ∷ read_fds else read_fds,
    if c.events.pollout then c.fd ∷ write_fds else write_fds,
    suc clients_count,
  )

-- `client_add_fds`
unfoldable pub client_add_fds : M (List ℕ × List ℕ × ℕ)
client_add_fds = do w ← get_world; add_fds (Collection.items w.client_list)
