-- ===== src/Examples/MainExamples.antt =====
-- A running library with one phone, one USB device and one client, at which the theorems about
-- usbmuxd.cpp are applied.
use usbmuxd_plugable_usb_msv.Prelude.{◌≡◌, ◌⊎◌, ◌<◌, ◌≤◌, [], ◌∷◌, true, length, take}
use usbmuxd_plugable_usb_msv.World.{World, clock_read}
use usbmuxd_plugable_usb_msv.World.Step.Ends.{Ends}
use usbmuxd_plugable_usb_msv.Main.{
  ListenSockets, fd_setsize, create_fd_sets, is_full, get_current_iteration_timeout,
}
use usbmuxd_plugable_usb_msv.Main.Timing.{get_current_iteration_timeout-Ends}
use usbmuxd_plugable_usb_msv.Main.Descriptors.{create_fd_sets-Ends}
use usbmuxd_plugable_usb_msv.Examples.{calm_host, phone, session, waiting, world_of}

abbrev running_world : World
running_world = world_of phone session waiting

abbrev listening : ListenSockets
listening = record { clients_listen = 100; devices_listen = 101 }

get_current_iteration_timeout-Ends_example :
    Ends
      (λ r v.
        (r.0 ≡ 0)
        × (r.1 ≤ 200000)
        × (v ≡ record running_world { trace = clock_read ∷ running_world.trace }))
      (get_current_iteration_timeout calm_host running_world)
get_current_iteration_timeout-Ends_example =
    get_current_iteration_timeout-Ends calm_host running_world

create_fd_sets-Ends_example :
    Ends
      (λ r v.
        let (reads, writes, fd_count) = r in
        (v ≡ running_world)
        × (take 2 reads ≡ 100 ∷ 101 ∷ [])
        × (length reads ≤ fd_count)
        × (length writes ≤ fd_count)
        × ((is_full fd_count ≡ true)
            ⊎ ((length reads < fd_setsize) × (length writes < fd_setsize))))
      (create_fd_sets listening running_world)
create_fd_sets-Ends_example = create_fd_sets-Ends listening running_world
