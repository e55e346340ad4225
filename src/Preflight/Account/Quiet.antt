-- ===== src/Preflight/Account/Quiet.antt =====
-- preflight.cpp: the callbacks of other threads report nothing and leave no client open.
use usbmuxd_plugable_usb_msv.Prelude.{ℕ, ◌≡◌, Bool, true, false, List, [], ◌∷◌, arith, ◌&&◌, not}
use usbmuxd_plugable_usb_msv.Preflight.{
  Phone, Arrival, notification_came, removed, Worker, client_new, open_client, client_free,
}
use usbmuxd_plugable_usb_msv.Preflight.Callback.{
  preflight_device_remove_cb, signal_is_paired, lockdownd_set_untrusted_host_buid, pair_on_request,
  set_buid_on_request, np_callback, arrive, arrive_all, serve,
}
use usbmuxd_plugable_usb_msv.Preflight.Account.{
  reports, delete, open_clients, removals, waits, Post, Post-bind, Post-map,
}

-- The accounts of two workers are the same.
abbrev pub Quiet : Worker → Worker → Type 0
Quiet s t =
    (reports t.calls ≡ reports s.calls)
    × (open_clients t.calls ≡ open_clients s.calls)
    × (removals t.calls ≡ removals s.calls)
    × (waits t.calls ≡ waits s.calls)

-- Whether the device is removed.
unfoldable pub takes_away : List Arrival → Bool
takes_away [] = false
takes_away (removed ∷ rest) = true
takes_away (notification_came notification ∷ rest) = takes_away rest

-- As before, and the device is there unless it was removed.
abbrev pub Served : Bool → Worker → Worker → Type 0
Served gone s t = Quiet s t × (t.cb.is_device_connected ≡ s.cb.is_device_connected && not gone)

abbrev is_removal : Arrival → Bool
is_removal removed = true
is_removal (notification_came notification) = false

module _ {Plist : Type 0} (phone : Phone Plist) where
  pair_on_request-Served : (s : Worker) → Post (λ _ t. Served false s t) (pair_on_request phone s)
  unfolding pair_on_request signal_is_paired client_new open_client client_free reports open_clients
      removals waits delete
  pair_on_request-Served s = ground arith

  set_buid_on_request-Served :
      (s : Worker) → Post (λ _ t. Served false s t) (set_buid_on_request phone s)
  unfolding set_buid_on_request lockdownd_set_untrusted_host_buid client_new open_client client_free
      reports open_clients removals waits delete
  set_buid_on_request-Served s = ground arith

  np_callback-Served :
      (n : List ℕ) (s : Worker) → Post (λ _ t. Served false s t) (np_callback phone n s)
  unfolding np_callback
  np_callback-Served [] s = ground arith
  np_callback-Served (c ∷ cs) s =
      ground (arith, pair_on_request-Served s, set_buid_on_request-Served s)

  arrive-Served :
      (a : Arrival) (s : Worker) → Post (λ _ t. Served (is_removal a) s t) (arrive phone a s)
  unfolding arrive preflight_device_remove_cb
  arrive-Served (notification_came n) s = np_callback-Served n s
  arrive-Served removed s = ground arith

  arrive_all-Served :
      (arrivals : List Arrival) (s : Worker)
      → Post (λ _ t. Served (takes_away arrivals) s t) (arrive_all phone arrivals s)
  unfolding arrive_all takes_away
  arrive_all-Served [] s = ground arith
  arrive_all-Served (a ∷ rest) s =
      Post-bind (λ _ t. Served (is_removal a) s t) (λ _ t. Served (takes_away (a ∷ rest)) s t)
        (arrive phone a) (λ _. arrive_all phone rest) s (arrive-Served a s)
        λ _ t h.
          Post-map (λ _ v. Served (takes_away rest) t v) (λ _ v. Served (takes_away (a ∷ rest)) s v)
            (arrive_all phone rest t) (λ _ v k. join a t v h k) (arrive_all-Served rest t)
    where
      join :
          (b : Arrival) (t v : Worker)
          → Served (is_removal b) s t
          → Served (takes_away rest) t v
          → Served (takes_away (b ∷ rest)) s v
      join (notification_came n) t v h k = ground (arith, h, k)
      join removed t v h k = ground (arith, h, k)

  pub serve-Served :
      (s : Worker) → Post (λ _ t. Served (takes_away (phone.arrivals s.calls)) s t) (serve phone s)
  unfolding serve
  serve-Served s = arrive_all-Served (phone.arrivals s.calls) s
