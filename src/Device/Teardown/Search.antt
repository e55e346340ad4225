-- ===== src/Device/Teardown/Search.antt =====
-- device.cpp: what `get_mux_connection` finds.
use usbmuxd_plugable_usb_msv.Prelude.{
  ℕ, ◌≡◌, refl, inl, inr, List, [], ◌∷◌, true, Option, some, none, arith, ◌==◌, Bool-cases,
  Option-cases,
}
use usbmuxd_plugable_usb_msv.Collection
use usbmuxd_plugable_usb_msv.World.{World, MuxConnection}
use usbmuxd_plugable_usb_msv.World.Step.Ends.{Ends, Ends-bind}
use usbmuxd_plugable_usb_msv.Device.Teardown.{
  same_client, find_device, get_mux_device_for_id, find_conn_of, find_conn_at, get_mux_connection,
}

-- The connection is there, and belongs to the client.
abbrev pub OwnedBy : ℕ → Option MuxConnection → Type 0
OwnedBy q none = ⊥
OwnedBy q (some c) = c.client ≡ some q

-- A connection that a search for the client's may return.
abbrev pub IsOf : ℕ → World → Option ℕ → Type 0
IsOf q w none = Unit {0}
IsOf q w (some conn) = OwnedBy q (w.conns conn)

same_client→eq : (o : Option ℕ) (q : ℕ) → same_client o q ≡ true → o ≡ some q
same_client→eq none q h = cc
same_client→eq (some p) q h = ground arith

pub find_conn_of-Ends :
    (ps : List ℕ) (q : ℕ) (w : World) → Ends (λ r v. (v ≡ w) × IsOf q w r) (find_conn_of ps q w)
unfolding find_conn_of
find_conn_of-Ends [] q w = (refl, tt)
find_conn_of-Ends (p ∷ ps) q w = elim (Option-cases (w.conns p)) [
  | inl e ↦ ground (arith, e)
  | inr (c, e) ↦ elim (Bool-cases (same_client c.client q)) [
    | inl mine ↦ ground (arith, e, mine, same_client→eq c.client q mine)
    | inr other ↦ ground (arith, e, other, find_conn_of-Ends ps q w)
  ]
]

find_device-Ends : (ps : List ℕ) (id : ℕ) (w : World) → Ends (λ r v. v ≡ w) (find_device ps id w)
unfolding find_device
find_device-Ends [] id w = refl
find_device-Ends (p ∷ ps) id w = elim (Option-cases (w.devices p)) [
  | inl e ↦ ground (arith, e)
  | inr (d, e) ↦ elim (Bool-cases (d.id == id)) [
    | inl this ↦ ground (arith, e, this)
    | inr other ↦ ground (arith, e, other, find_device-Ends ps id w)
  ]
]

find_conn_at-Ends :
    (found : Option ℕ) (q : ℕ) (w : World)
    → Ends (λ r v. (v ≡ w) × IsOf q w r) (find_conn_at found q w)
unfolding find_conn_at
find_conn_at-Ends none q w = (refl, tt)
find_conn_at-Ends (some p) q w = elim (Option-cases (w.devices p)) [
  | inl e ↦ ground (arith, e)
  | inr (d, e) ↦ elim (Option-cases d.connections) [
    | inl n ↦ ground (arith, e, n)
    | inr (col, n) ↦ ground (arith, e, n, find_conn_of-Ends (Collection.items col) q w)
  ]
]

-- `get_mux_connection` changes nothing, and what it finds belongs to the client.
pub get_mux_connection-Ends :
    (id q : ℕ) (w : World) → Ends (λ r v. (v ≡ w) × IsOf q w r) (get_mux_connection id q w)
unfolding get_mux_connection get_mux_device_for_id
get_mux_connection-Ends id q w =
    Ends-bind (λ _ v. v ≡ w) (λ r v. (v ≡ w) × IsOf q w r)
      (find_device (Collection.items w.device_list) id) (λ found. find_conn_at found q) w
      (find_device-Ends (Collection.items w.device_list) id w)
      (λ found v same. rw same (find_conn_at-Ends found q w))
