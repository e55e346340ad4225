-- ===== src/Main/Descriptors.antt =====
-- usbmuxd.cpp: the descriptor sets of a pass have room for what is in them.
use usbmuxd_plugable_usb_msv.Prelude.{
  ℕ, ◌<◌, ◌≤◌, ◌≡◌, refl, ◌⊎◌, List, [], ◌∷◌, true, length, take, length-append, arith,
}
use usbmuxd_plugable_usb_msv.World.{World}
use usbmuxd_plugable_usb_msv.World.Step.{load_client, load_device}
use usbmuxd_plugable_usb_msv.World.Step.Ends.{Ends, Ends-bind}
use usbmuxd_plugable_usb_msv.Device.Sockets.{device_sockets, device_add_fds}
use usbmuxd_plugable_usb_msv.Client.Socket.{add_fds, client_add_fds}
use usbmuxd_plugable_usb_msv.Main.{ListenSockets, create_fd_sets, is_full, fd_setsize}
use usbmuxd_plugable_usb_msv.Collection
use usbmuxd_plugable_usb_msv.World.Step.Reads.{
  Reads, Reads-bind, Reads-load_client, Reads-load_device,
}

-- The sets of the clients hold at most as many descriptors as were counted.
abbrev Counted : World → List ℕ × List ℕ × ℕ → World → Type 0
Counted w (reads, writes, n) v = (v ≡ w) × (length reads ≤ n) × (length writes ≤ n)

add_fds-Counted : (ps : List ℕ) (w : World) → Ends (λ r v. Counted w r v) (add_fds ps w)
unfolding add_fds
add_fds-Counted [] w = ground arith
add_fds-Counted (p ∷ ps) w =
    Ends-bind (λ _ v. v ≡ w) (λ r v. Counted w r v) (load_client p) _ w (Reads-load_client p w)
      λ c v e.
        Ends-bind (λ r u. Counted v r u) (λ r u. Counted w r u) (add_fds ps) _ v
          (add_fds-Counted ps v) λ (reads, writes, n) u k. ground (arith, e, k)

-- The devices' sockets are read only.
device_sockets-Reads : (ps : List ℕ) → Reads (device_sockets ps)
unfolding device_sockets
device_sockets-Reads [] = λ w. refl
device_sockets-Reads (p ∷ ps) =
    Reads-bind (load_device p) _ (Reads-load_device p)
      λ d. Reads-bind (device_sockets ps) _ (device_sockets-Reads ps) λ sockets w. refl

device_add_fds-Counted : (w : World) → Ends (λ r v. (v ≡ w) × (r.1 ≡ length r.0)) (device_add_fds w)
unfolding device_add_fds
device_add_fds-Counted w =
    Ends-bind (λ _ v. v ≡ w) (λ r v. (v ≡ w) × (r.1 ≡ length r.0))
      (device_sockets (Collection.items w.device_list)) _ w
      (device_sockets-Reads (Collection.items w.device_list) w) λ reads v e. (e, refl)

-- `CreateFdSets` ends and changes nothing. The two listening sockets are in the read set, and
-- neither set has more descriptors than `iFdCount`; a new socket that is not turned away because of
-- that count finds less than `FD_SETSIZE` of them.
pub create_fd_sets-Ends :
    (sockets : ListenSockets) (w : World)
    → Ends
        (λ r v.
          let (reads, writes, fd_count) = r in
          (v ≡ w)
          × (take 2 reads ≡ sockets.clients_listen ∷ sockets.devices_listen ∷ [])
          × (length reads ≤ fd_count)
          × (length writes ≤ fd_count)
          × ((is_full fd_count ≡ true)
              ⊎ ((length reads < fd_setsize) × (length writes < fd_setsize))))
        (create_fd_sets sockets w)
unfolding create_fd_sets client_add_fds is_full
create_fd_sets-Ends sockets w =
    Ends-bind (λ r v. Counted w r v) _ client_add_fds _ w
      (add_fds-Counted (Collection.items w.client_list) w)
      λ (reads, writes, n) v k.
        Ends-bind (λ r u. (u ≡ v) × (r.1 ≡ length r.0)) _ device_add_fds _ v
          (device_add_fds-Counted v) λ (more, m) u d. ground (arith, k, d, length-append reads more)
