-- ===== src/Device/Ports.antt =====
-- device.cpp: `find_sport` and `get_next_device_id`, the two searches for an unused number, and
-- `device_start_connect`.
pub mod Search
use usbmuxd_plugable_usb_msv.Prelude.{
  ℕ, zero, suc, ◌+◌, ◌%◌, ◌^◌, List, [], ◌∷◌, Bool, true, false, ◌||◌, Option, none, some, leb, ltb,
  ◌==◌, if◌then◌else◌, length, ℤ, pos, is_neg, neg,
}
use usbmuxd_plugable_usb_msv.Collection
use usbmuxd_plugable_usb_msv.Wire.{th_syn}
use usbmuxd_plugable_usb_msv.World.Host.{Host}
use usbmuxd_plugable_usb_msv.World.Step.{
  M, pure, ◌>>=◌, ◌>>◌, done, fault, exhausted, get_world, require, load_conn, put_conn, free_conn,
  load_device, put_device, fresh_address,
}
use usbmuxd_plugable_usb_msv.Client.Reply.{result_baddev, result_connrefused}
use usbmuxd_plugable_usb_msv.Device.Packet.{send_tcp}
use usbmuxd_plugable_usb_msv.Device.Window.{new_connection}
use usbmuxd_plugable_usb_msv.Device.Teardown.{get_mux_device_for_id}

-- The `FOREACH` of both searches: is the number in use?
abbrev pub in_use : ℕ → List ℕ → Bool
in_use n [] = false
in_use n (m ∷ ms) = n == m || in_use n ms

-- The `while(1)` of `find_sport`, for the ports in use; `next_sport` is a `uint16_t`.
unfoldable pub search_sport : ℕ → List ℕ → ℕ → Option ℕ
search_sport zero ports next = none
search_sport (suc fuel) ports next = elim (in_use next ports) [
  | true ↦ search_sport fuel ports ((next + 1) % 2 ^ 16)
  | false ↦ some next
]

-- The source ports of the connections at these addresses.
unfoldable pub sports_of : List ℕ → M (List ℕ)
sports_of [] = pure []
sports_of (p ∷ ps) = do c ← load_conn p; rest ← sports_of ps; pure (c.sport ∷ rest)

-- 2 ^ 16 rounds see every port; `Ports.search_sport_total` shows that they are enough.
abbrev pub sport_rounds : ℕ
sport_rounds = 65536

-- `find_sport`
unfoldable pub find_sport : ℕ → M ℕ
find_sport dev = do
  d ← load_device dev
  conns ← require d.connections
  if leb 65535 (Collection.count conns) then pure 0 else (do
    ports ← sports_of (Collection.items conns)
    elim (search_sport sport_rounds ports d.next_sport) [
      | none ↦ (λ w. exhausted)
      | some sport ↦ (put_device dev (record d { next_sport = (sport + 1) % 2 ^ 16 }) >> pure sport)
    ])

-- The `while(1)` of `get_next_device_id`, for the ids in use.
unfoldable pub search_id : ℕ → List ℕ → ℕ → Option ℕ
search_id zero ids next = none
search_id (suc fuel) ids next = elim (in_use next ids) [
  | true ↦ search_id fuel ids (next + 1)
  | false ↦ some next
]

-- The ids of the devices at these addresses.
unfoldable pub ids_of : List ℕ → M (List ℕ)
ids_of [] = pure []
ids_of (p ∷ ps) = do d ← load_device p; rest ← ids_of ps; pure (d.id ∷ rest)

-- `next_device_id` is an `int`, and one that grows past its range is undefined behaviour, a fault.
-- The search only counts up, so that it has left the range on the way, or leaves it with the last
-- `next_device_id++`, exactly if the number behind the one found is outside.
abbrev pub int_limit : ℕ
int_limit = 2 ^ 31

-- `get_next_device_id`; with one round more than there are devices the search ends.
unfoldable pub get_next_device_id : M ℕ
get_next_device_id = do
  w ← get_world
  ids ← ids_of (Collection.items w.device_list)
  elim (search_id (suc (length ids)) ids w.next_device_id) [
    | none ↦ (λ v. exhausted)
    | some id ↦
        if ltb (id + 1) int_limit
        then (λ v. done id (record v { next_device_id = id + 1 }))
        else (λ v. fault)
  ]

module _ (host : Host) where
  -- The part of `device_start_connect` for a device and a source port.
  unfoldable pub open_connection : ℕ → ℕ → ℕ → ℕ → M ℤ
  open_connection dev sport dport client = do
    conn ← fresh_address
    put_conn conn (new_connection dev client sport dport)
    res ← send_tcp host conn th_syn []
    if is_neg res then (free_conn conn >> pure (neg result_connrefused)) else (do
      d ← load_device dev
      conns ← require d.connections
      put_device dev (record d { connections = some (Collection.add conns conn) })
      pure (pos 0))

  -- `device_start_connect`
  unfoldable pub device_start_connect : ℕ → ℕ → ℕ → M ℤ
  device_start_connect device_id dport client = do
    found ← get_mux_device_for_id device_id
    elim found [
      | none ↦ pure (neg result_baddev)
      | some dev ↦ do
        sport ← find_sport dev
        if sport == 0 then pure (neg result_baddev) else open_connection dev sport dport client
    ]
