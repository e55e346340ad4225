-- ===== src/Client/Notify.antt =====
-- client.cpp: what clients are told about devices: the plists and records of a device,
-- `start_listen`, and the broadcasts to the clients that listen.
pub mod Halting
use usbmuxd_plugable_usb_msv.Prelude.{
  ℕ, ◌-◌, List, [], ◌∷◌, ◌++◌, Bool, true, false, ◌==◌, if◌then◌else◌, length, take, replicate, ℤ,
  pos, negsuc, is_neg,
}
use Prim.Native.String.{String}
use usbmuxd_plugable_usb_msv.Collection
use usbmuxd_plugable_usb_msv.Wire.{le16, le32}
use usbmuxd_plugable_usb_msv.World.{DeviceInfo, ClientState, client_listen, environment_read}
use usbmuxd_plugable_usb_msv.World.Host.{Host}
use usbmuxd_plugable_usb_msv.World.Step.{
  M, pure, ◌>>=◌, ◌>>◌, emit, get_world, when, load_client, put_client,
}
use usbmuxd_plugable_usb_msv.Client.Reply.{codes, send_pkt, send_plist_pkt}
use usbmuxd_plugable_usb_msv.Device.Lifecycle.{device_get_list, device_exists, device_set_visible}

abbrev pub message_device_add : ℕ
message_device_add = 4

abbrev pub message_device_remove : ℕ
message_device_remove = 5

abbrev pub is_listening : ClientState → Bool
is_listening client_listen = true
is_listening _ = false

-- `strncpy(dmsg.serial_number, dev->serial, 256)` and the zero in the last place.
unfoldable pub serial_field : List ℕ → List ℕ
serial_field serial = take 255 serial ++ replicate (256 - length (take 255 serial)) 0

-- `struct usbmuxd_device_record`, packed
unfoldable pub device_record : DeviceInfo → List ℕ
device_record dev =
    le32 dev.id ++ (le16 dev.pid ++ (serial_field dev.serial ++ (0 ∷ 0 ∷ [] ++ le32 dev.location)))

module _ (host : Host) where
  open host use {
    Plist, plist_new_dict, plist_new_array, plist_new_string, plist_new_uint, plist_dict_set_item,
    plist_array_append_item,
  }

  -- `plist_dict_set_item(dict, key, plist_new_string(value))`
  abbrev set_string : Plist → String → List ℕ → Plist
  set_string dict key value = plist_dict_set_item dict key (plist_new_string value)

  abbrev set_uint : Plist → String → ℕ → Plist
  set_uint dict key value = plist_dict_set_item dict key (plist_new_uint value)

  -- `create_device_attached_plist`
  unfoldable pub create_device_attached_plist : DeviceInfo → Plist
  create_device_attached_plist dev =
      let dict =
        set_uint (set_string plist_new_dict "MessageType" (codes "Attached")) "DeviceID" dev.id in
      let usb =
        set_string (set_uint plist_new_dict "ConnectionSpeed" 480000000) "ConnectionType"
          (codes "USB") in
      let place = set_uint (set_uint usb "DeviceID" dev.id) "LocationID" dev.location in
      let props = set_string (set_uint place "ProductID" dev.pid) "SerialNumber" dev.serial in
      plist_dict_set_item dict "Properties" props

  -- `create_device_pairing_event_plist`
  unfoldable pub create_device_pairing_event_plist : DeviceInfo → List ℕ → Plist
  create_device_pairing_event_plist dev event =
      let dict = set_uint (set_string plist_new_dict "MessageType" event) "DeviceID" dev.id in
      let place = set_uint (set_uint plist_new_dict "DeviceID" dev.id) "LocationID" dev.location in
      let props = set_string (set_uint place "ProductID" dev.pid) "SerialNumber" dev.serial in
      plist_dict_set_item dict "Properties" props

  -- The array of `send_device_list`
  unfoldable pub device_array : Plist → List DeviceInfo → Plist
  device_array devices [] = devices
  device_array devices (dev ∷ devs) =
      device_array (plist_array_append_item devices (create_device_attached_plist dev)) devs

  -- `send_device_list`
  unfoldable pub send_device_list : ℕ → ℕ → M ℤ
  send_device_list client tag = do
    w ← get_world
    emit environment_read
    devs ← device_get_list host (host.include_hidden w.trace)
    send_plist_pkt host client tag
        (plist_dict_set_item plist_new_dict "DeviceList" (device_array plist_new_array devs))

  -- `notify_device_add`
  unfoldable pub notify_device_add : ℕ → DeviceInfo → M ℤ
  notify_device_add client dev = do
    c ← load_client client
    if c.proto_version == 1
        then send_plist_pkt host client 0 (create_device_attached_plist dev)
        else send_pkt host client 0 message_device_add (device_record dev)

  -- `notify_device_remove`
  unfoldable pub notify_device_remove : ℕ → ℕ → M ℤ
  notify_device_remove client device_id = do
    c ← load_client client
    if c.proto_version == 1
        then send_plist_pkt host client 0 (
            set_uint (set_string plist_new_dict "MessageType" (codes "Detached")) "DeviceID"
              device_id)
        else send_pkt host client 0 message_device_remove (le32 device_id)

  -- The loop of `start_listen`, up to the first failure
  unfoldable pub announce : ℕ → List DeviceInfo → M Bool
  announce client [] = pure true
  announce client (dev ∷ devs) = do
    res ← notify_device_add client dev
    if is_neg res then pure false else announce client devs

  -- `start_listen`
  unfoldable pub start_listen : ℕ → M ℤ
  start_listen client = do
    c ← load_client client
    put_client client (record c { state = client_listen })
    devs ← device_get_list host false
    all ← announce client devs
    pure (if all then pos (length devs) else negsuc 0)

  -- `FOREACH` over the clients with a message for those that listen; a failure is passed over.
  unfoldable pub broadcast : (ℕ → M ℤ) → List ℕ → M (Unit {0})
  broadcast notify [] = pure tt
  broadcast notify (p ∷ ps) = do
    c ← load_client p
    when (is_listening c.state) (notify p >> pure tt)
    broadcast notify ps

  -- `client_device_add`
  unfoldable pub client_device_add : DeviceInfo → M (Unit {0})
  client_device_add dev = do
    device_set_visible dev.id
    w ← get_world
    broadcast (λ p. notify_device_add p dev) (Collection.items w.client_list)

  -- `client_device_remove`
  unfoldable pub client_device_remove : ℕ → M (Unit {0})
  client_device_remove device_id = do
    w ← get_world
    broadcast (λ p. notify_device_remove p device_id) (Collection.items w.client_list)

  -- The message of `client_device_pairing_event` to one client that listens.
  unfoldable pub notify_pairing_event : DeviceInfo → List ℕ → ℕ → M ℤ
  notify_pairing_event dev event client = do
    c ← load_client client
    if c.proto_version == 1
        then send_plist_pkt host client 0 (create_device_pairing_event_plist dev event)
        else pure (pos 0)

  -- `client_device_pairing_event`
  unfoldable pub client_device_pairing_event : DeviceInfo → List ℕ → Bool → M (Unit {0})
  client_device_pairing_event dev event validate_device = do
    found ← (if validate_device then device_exists dev.id else pure true)
    when found (do
      w ← get_world
      broadcast (notify_pairing_event dev event) (Collection.items w.client_list))

  -- `client_device_removed_during_add`
  unfoldable pub client_device_removed_during_add : DeviceInfo → M (Unit {0})
  client_device_removed_during_add dev =
      client_device_pairing_event dev (codes "RemovedDuringAdd") false

  -- `client_device_trust_pending`
  unfoldable pub client_device_trust_pending : DeviceInfo → M (Unit {0})
  client_device_trust_pending dev = client_device_pairing_event dev (codes "TrustPending") true

  -- `client_device_password_protected`
  unfoldable pub client_device_password_protected : DeviceInfo → M (Unit {0})
  client_device_password_protected dev =
      client_device_pairing_event dev (codes "PasswordProtected") true

  -- `client_device_user_denied_pairing`
  unfoldable pub client_device_user_denied_pairing : DeviceInfo → M (Unit {0})
  client_device_user_denied_pairing dev =
      client_device_pairing_event dev (codes "UserDeniedPairing") true

  -- `client_device_error_already_exits`
  unfoldable pub client_device_error_already_exits : DeviceInfo → M (Unit {0})
  client_device_error_already_exits dev =
      client_device_pairing_event dev (codes "ErrorDeviceAlreadyExists") false
