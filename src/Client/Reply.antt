-- ===== src/Client/Reply.antt =====
-- client.cpp: what is written for a client: `send_pkt`, `send_plist_pkt`, `send_result`,
-- `client_set_events`, `client_notify_connect`, `client_write`, `client_read`.
pub mod Output
pub mod Halting
use usbmuxd_plugable_usb_msv.Prelude.{
  ℕ, ◌+◌, ◌*◌, ◌-◌, ◌/◌, ◌%◌, ◌^◌, List, [], ◌∷◌, ◌++◌, Bool, true, false, Option, none, some, ltb,
  ◌==◌, if◌then◌else◌, length, take, ℤ, pos, negsuc, is_neg, pos_part,
}
use Prim.Native.String.{String}
use Prim.Native.Char.{code}
use usbmuxd_plugable_usb_msv.Wire.{le32}
use usbmuxd_plugable_usb_msv.World.{
  MuxClient, Events, ClientState, client_command, client_connecting1, client_connecting2,
  client_connected, sock_sent, sock_received,
}
use usbmuxd_plugable_usb_msv.World.Host.{Host}
use usbmuxd_plugable_usb_msv.World.Step.{
  M, pure, ◌>>=◌, ◌>>◌, fault, emit, get_world, require, load_client, put_client,
}

-- The bytes of an ASCII literal.
abbrev pub codes : String → List ℕ
codes String.[] = []
codes (String.◌∷◌ c s) = code c ∷ codes s

-- `enum usbmuxd_result`
abbrev pub result_ok : ℕ
result_ok = 0

abbrev pub result_badcommand : ℕ
result_badcommand = 1

abbrev pub result_baddev : ℕ
result_baddev = 2

abbrev pub result_connrefused : ℕ
result_connrefused = 3

abbrev pub result_badversion : ℕ
result_badversion = 6

-- `enum usbmuxd_msgtype`
abbrev pub message_result : ℕ
message_result = 1

abbrev pub message_plist : ℕ
message_plist = 8

-- `sizeof(struct usbmuxd_header)`
abbrev pub header_size : ℕ
header_size = 16

abbrev pub is_connected : ClientState → Bool
is_connected client_connected = true
is_connected _ = false

abbrev pub is_connecting2 : ClientState → Bool
is_connecting2 client_connecting2 = true
is_connecting2 _ = false

-- `client_set_events` on the client that it was given.
unfoldable pub with_events : MuxClient → Events → MuxClient
with_events c e =
    if is_connected c.state then record c { devents = e; events = e } else record c { devents = e }

-- `client_set_events`; the pointer may be null, and is read before anything else.
unfoldable pub client_set_events : Option ℕ → Events → M ℤ
client_set_events client e = do
  p ← require client
  c ← load_client p
  elim c.state [
    | client_connected ↦ (put_client p (with_events c e) >> pure (pos 0))
    | client_connecting2 ↦ (put_client p (with_events c e) >> pure (pos 0))
    | _ ↦ pure (negsuc 0)
  ]

-- `struct usbmuxd_header`, then the payload.
unfoldable pub build_message : ℕ → ℕ → ℕ → List ℕ → List ℕ
build_message version tag msg payload =
    le32 (header_size + length payload) ++ (le32 version ++ (le32 msg ++ (le32 tag ++ payload)))

-- `available < hdr.length`, in `uint32_t`
unfoldable pub must_grow : ℕ → ℕ → ℕ → Bool
must_grow capacity size len = ltb ((capacity + 2 ^ 32 - size) % 2 ^ 32) len

-- The capacity after `send_pkt` has enlarged the buffer where it does not hold the message.
unfoldable pub capacity_for : ℕ → ℕ → ℕ → ℕ
capacity_for capacity size len =
    if must_grow capacity size len then (capacity + len + 4096) % 2 ^ 32 / 4096 * 4096 else capacity

-- The buffer that is written: `realloc` accepts a null pointer, `memcpy` does not.
unfoldable pub buffer_for : Bool → Option (List ℕ) → Option (List ℕ)
buffer_for true none = some []
buffer_for true (some old) = some old
buffer_for false old = old

-- The message copied behind what is queued, and `POLLOUT` asked for.
unfoldable pub queue_message : MuxClient → ℕ → List ℕ → List ℕ → MuxClient
queue_message c capacity old message = record c {
  ob_buf = some (take c.ob_size old ++ message);
  ob_size = (c.ob_size + length message) % 2 ^ 32;
  ob_capacity = capacity;
  events = record (c.events) { pollout = true };
}

-- What `client_notify_connect` makes of the client once the result is queued.
unfoldable pub notified : ℕ → MuxClient → MuxClient
notified result c =
    if result == result_ok
    then record c {
      state = client_connecting2;
      events = record { pollin = false; pollout = true };
      ib_buf = none;
    }
    else record c { state = client_command }

module _ (host : Host) where
  -- The test of `send_pkt` for room behind the output, and the `realloc` where there is none: is
  -- there room now?
  unfoldable pub make_room : MuxClient → ℕ → M Bool
  make_room c len =
      if must_grow c.ob_capacity c.ob_size len
      then (do w ← get_world; pure (host.realloc w (capacity_for c.ob_capacity c.ob_size len)))
      else pure true

  -- `send_pkt` behind the `realloc`. A copy past the capacity, or into a buffer that was freed, is a
  -- fault.
  unfoldable pub copy_message : ℕ → MuxClient → ℕ → List ℕ → M ℤ
  copy_message p c len message = do
    let capacity = capacity_for c.ob_capacity c.ob_size len
    old ← require (buffer_for (must_grow c.ob_capacity c.ob_size len) c.ob_buf)
    if ltb capacity (c.ob_size + len)
        then (λ w. fault)
        else (do put_client p (queue_message c capacity old message); pure (pos len))

  -- `send_pkt`; without memory for a larger buffer the client stays as it is.
  unfoldable pub send_pkt : ℕ → ℕ → ℕ → List ℕ → M ℤ
  send_pkt p tag msg payload = do
    c ← load_client p
    let len = header_size + length payload
    is_room ← make_room c len
    if is_room
        then copy_message p c len (build_message c.proto_version tag msg payload)
        else pure (negsuc 0)

  -- `client_read`
  unfoldable pub client_read : ℕ → ℕ → M (Option (List ℕ))
  client_read p len = do
    c ← load_client p
    if is_connected c.state
        then (do w ← get_world; emit (sock_received c.fd len); pure (host.recv w.trace c.fd len))
        else pure none

  -- `client_write`: a client that is not connected is refused.
  unfoldable pub client_write : ℕ → List ℕ → M ℤ
  client_write p buf = do
    c ← load_client p
    if is_connected c.state
        then (do
          w ← get_world
          emit (sock_sent c.fd (take (pos_part (host.send w.trace c.fd buf)) buf))
          pure (host.send w.trace c.fd buf))
        else pure (negsuc 0)

  -- `send_plist_pkt`
  unfoldable pub send_plist_pkt : ℕ → ℕ → host.Plist → M ℤ
  send_plist_pkt p tag plist = elim (host.plist_to_xml plist) [
    | none ↦ pure (negsuc 0)
    | some xml ↦ send_pkt p tag message_plist xml
  ]

  -- The dictionary of `send_result`.
  unfoldable pub result_plist : ℕ → host.Plist
  result_plist result =
      host.plist_dict_set_item
        (host.plist_dict_set_item host.plist_new_dict "MessageType"
          (host.plist_new_string (codes "Result")))
        "Number" (host.plist_new_uint result)

  -- `send_result`: a plist for protocol version 1, four bytes otherwise.
  unfoldable pub send_result : ℕ → ℕ → ℕ → M ℤ
  send_result p tag result = do
    c ← load_client p
    if c.proto_version == 1
        then send_plist_pkt p tag (result_plist result)
        else send_pkt p tag message_result (le32 result)

  -- `client_notify_connect`
  unfoldable pub client_notify_connect : ℕ → ℕ → M ℤ
  client_notify_connect p result = do
    c ← load_client p
    elim c.state [
      | client_connecting1 ↦ do
        res ← send_result p c.connect_tag result
        if is_neg res
            then pure (negsuc 0)
            else (do c' ← load_client p; put_client p (notified result c'); pure (pos 0))
      | _ ↦ pure (negsuc 0)
    ]
